-- ===== src/Payments/Initiation.antt =====
-- services/payment_service.py: how the provider's answer to a request is recorded.
use mikrotik.Prelude.{ℕ, String, ◌≡◌, true, some, refl, Bool-cases, inl, inr, arith}
use mikrotik.Models.{constraints_hold, PaymentSession, Status}
use mikrotik.World.{App, World, ok, ◌>>=◌, ◌>>◌, with_session, commit, flush, write}
use mikrotik.Crud.{
  lookup_session, save_session, create_log, next_id, get_payment_session_by_public_id,
}
use mikrotik.Crud.Puts.{Has, put-Has, lookup-public_id}
use mikrotik.Providers.{ProviderInitiation}
use mikrotik.Payments.{PublicResponse, public_response, record_initiation}

publish-Has :
    {A : Type 0} (public_id : String) (id : ℕ) (status : Status) (m : App A) (s : World)
    → ((w : World) → (m w).1.db ≡ w.db)
    → Has public_id id status s.session.payment_sessions
    → (a : A) → ((flush >> (commit >> m)) s).0 ≡ ok a
    → Has public_id id status ((flush >> (commit >> m)) s).1.db.payment_sessions
unfolding flush commit ◌>>=◌
publish-Has public_id id status m s quiet has a h = elim (Bool-cases (constraints_hold s.session)) [
  | inl fits ↦ rw (fits, fits, quiet (record s { db = s.session })) has
  | inr clashes ↦ absurd (ground arith)
]

-- `record_initiation` sets the session to pending, whatever its status was: also one that a callback
-- has provisioned in the meantime.
pub record_initiation-pending :
    (public_id : String) (initiation : ProviderInitiation) (row : PaymentSession) (s : World)
    (response : PublicResponse)
    → lookup_session public_id s.db.payment_sessions ≡ some row
    → (record_initiation public_id initiation s).0 ≡ ok response
    → Has public_id row.id Status.pending
        (record_initiation public_id initiation s).1.db.payment_sessions
unfolding record_initiation with_session get_payment_session_by_public_id save_session create_log
    next_id write ◌>>=◌ flush commit public_response
record_initiation-pending public_id initiation row s response found h = rw found (
    publish-Has public_id row.id Status.pending (public_response initiated true) _ (λ w. refl)
      (put-Has s.now initiated s.db.payment_sessions public_id row.id row.status
        (record { row = row; found = found; key = refl; at_status = refl })
        (lookup-public_id public_id s.db.payment_sessions row found) refl)
      response (rw found at h))
  where
    initiated : PaymentSession
    initiated = record row {
      provider_request_id = some initiation.request_id;
      status = Status.pending;
      result_description = some initiation.customer_message;
    }

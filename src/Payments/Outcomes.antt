-- ===== src/Payments/Outcomes.antt =====
-- services/payment_service.py: how `complete_payment` ends.
use mikrotik.Prelude.{◌==◌, false, subst, sym}
use mikrotik.Crud.{same_status, get_package_by_id, put_session}
use mikrotik.World.{Exn, rollback, raise, catch, with_session, refresh}
use mikrotik.Prelude.{
  ap, ◌⊎◌, refl, Bool-cases, inl, inr, none, ℕ, String, ◌≡◌, ◌∙◌, Option, some, find,
}
use mikrotik.Models.{constraints_hold, Package, Db, PaymentSession, Status}
use mikrotik.World.{
  recover, continue, App, flush, World, ◌>>◌, Result, ok, err, ◌>>=◌, write, commit,
}
use mikrotik.Crud.{
  get_payment_session_by_public_id, next_id, lookup_session, save_session, create_log,
}
use mikrotik.Crud.Puts.{Has, lookup-public_id, put-Has}
use mikrotik.Access.{Provisioned, provision_paid_session}
use mikrotik.Access.Frames.{provision_paid_session-Keeps}
use mikrotik.Access.Same.{provision_paid_session-Yields}
use mikrotik.Payments.{
  record_paid, activate, activation_failed, complete_with, complete_found, complete_payment,
  received,
}
use mikrotik.Payments.Recording.{IsPaid, IsUnderway, IsUnderway-frame, Records, record_paid-Records}

-- `complete_payment` publishes a paid session; or it raises, and then it has published nothing, or no
-- payment and a session whose activation failed.
abbrev pub Outcome : String → ℕ → Db → Result (Unit {0}) × World → Type 0
Outcome public_id id d (ok u, s) = IsPaid public_id id s.db
Outcome public_id id d (err e, s) =
    (s.db ≡ d)
    ⊎ ((s.db.payments ≡ d.payments)
        × Has public_id id Status.provisioning_failed s.db.payment_sessions)

unpublished-Outcome :
    (public_id : String) (id : ℕ) (d : Db) (e : Exn) (s : World)
    → s.db ≡ d
    → s.session.payments ≡ d.payments
    → Has public_id id Status.provisioning_failed s.session.payment_sessions
    → Outcome public_id id d ((flush >> commit >> raise e) s)
unfolding flush commit ◌>>=◌
unpublished-Outcome public_id id d e s same payments has =
    elim (Bool-cases (constraints_hold s.session)) [
      | inl fits ↦ rw (fits, fits) (inr (payments, has))
      | inr clashes ↦ rw clashes (inl same)
    ]

closing_failure : Option ℕ → Exn → App (Unit {0})
closing_failure router_id e =
    (create_log "Payment provisioning failed" none router_id "error"
        (some "payment.provisioning_failed")
      >> commit)
    >> raise e

closing_failure-Outcome :
    (public_id : String) (id : ℕ) (d : Db) (router_id : Option ℕ) (e : Exn) (s : World)
    → s.db ≡ d
    → s.session.payments ≡ d.payments
    → Has public_id id Status.provisioning_failed s.session.payment_sessions
    → Outcome public_id id d (closing_failure router_id e s)
unfolding closing_failure create_log ◌>>=◌ write next_id flush
closing_failure-Outcome public_id id d router_id e s same payments has =
    unpublished-Outcome public_id id d e _ same payments has

module _ (public_id : String) (id : ℕ) (d : Db) where
  recording :
      (r : Result Provisioned) (s : World) (receipt : Option String)
      → IsUnderway public_id id d s
      → ((p : Provisioned) → r ≡ ok p → (p.2.public_id ≡ public_id) × (p.2.id ≡ id))
      → Records public_id id d (continue (r, s) (record_paid receipt))
  recording (ok p) s receipt u same =
      record_paid-Records public_id id d receipt p s u (same p refl).0 (same p refl).1
  recording (err e) s receipt u same = u.committed

  activate-Records :
      (row : PaymentSession) (pkg : Package) (receipt : Option String) (s : World)
      → row.public_id ≡ public_id
      → row.id ≡ id
      → row.status ≡ Status.provisioning
      → IsUnderway public_id id d s
      → Records public_id id d (activate row pkg receipt s)
  unfolding activate ◌>>=◌
  activate-Records row pkg receipt s same key status u =
      let after =
        (provision_paid_session-Keeps row (IsUnderway-frame public_id id d row same key status)
            pkg).at
          s u in
      recording (provision_paid_session row pkg s).0 _ receipt after λ p e.
        let h = (provision_paid_session-Yields row pkg).at s p e in
        (ap (λ r. r.public_id) h ∙ same, ap (λ r. r.id) h ∙ key)

  activation_failed-Outcome :
      (e : Exn) (s : World) (row : PaymentSession)
      → lookup_session public_id d.payment_sessions ≡ some row
      → row.id ≡ id
      → s.db ≡ d
      → Outcome public_id id d (activation_failed public_id e s)
  unfolding activation_failed closing_failure ◌>>=◌ rollback get_payment_session_by_public_id
      save_session
  activation_failed-Outcome e s row found key same =
      rw (same, found)
        (closing_failure-Outcome public_id id d (some row.router_id) e failed_world refl refl (
          put-Has s.now failed_row d.payment_sessions public_id id row.status held
            (lookup-public_id public_id d.payment_sessions row found) key))
    where
      failed_row : PaymentSession
      failed_row = record row {
        status = Status.provisioning_failed;
        result_description = some "Payment received; access activation needs retry";
      }

      failed_world : World
      failed_world = record s {
        db = d;
        session = record d { payment_sessions = put_session s.now failed_row d.payment_sessions };
      }

      held : Has public_id id row.status d.payment_sessions
      held = record { row = row; found = found; key = key; at_status = refl }

  recovering :
      (r : Result (Unit {0})) (s : World) (row : PaymentSession)
      → lookup_session public_id d.payment_sessions ≡ some row
      → row.id ≡ id
      → Records public_id id d (r, s)
      → Outcome public_id id d (recover (r, s) (activation_failed public_id))
  recovering (ok u) s row found key paid = paid
  recovering (err e) s row found key same = activation_failed-Outcome e s row found key same

  complete_with-Outcome :
      (before row : PaymentSession) (receipt : Option String) (pkg : Package) (s : World)
      → lookup_session public_id d.payment_sessions ≡ some before
      → before.id ≡ id
      → row.public_id ≡ public_id
      → row.id ≡ id
      → row.status ≡ Status.provisioning
      → IsUnderway public_id id d s
      → Outcome public_id id d (complete_with row receipt (some pkg) s)
  unfolding complete_with catch
  complete_with-Outcome before row receipt pkg s found was same key status u =
      subst
        (λ i. Outcome public_id id d (recover (activate row pkg receipt s) (activation_failed i)))
        (sym same)
        (recovering (activate row pkg receipt s).0 _ before found was
          (activate-Records row pkg receipt s same key status u))

  complete_found-Outcome :
      (row : PaymentSession) (pkg : Package) (receipt description : Option String) (code : String)
      (s : World)
      → lookup_session public_id d.payment_sessions ≡ some row
      → row.id ≡ id
      → same_status row.status Status.provisioned ≡ false
      → find (λ p. p.id == row.package_id) d.packages ≡ some pkg
      → s.db ≡ d
      → s.session ≡ d
      → Outcome public_id id d (complete_found receipt code description (some row) s)
  unfolding complete_found ◌>>=◌ save_session get_package_by_id
  complete_found-Outcome row pkg receipt description code s found key due sold same fresh =
      rw (due, fresh, sold)
        (complete_with-Outcome row (received row receipt code description) receipt pkg _ found key
          (lookup-public_id public_id d.payment_sessions row found) key refl
          (record {
            committed = same;
            payments = refl;
            session =
                put-Has s.now _ d.payment_sessions public_id id row.status
                  (record { row = row; found = found; key = key; at_status = refl })
                  (lookup-public_id public_id d.payment_sessions row found) key;
          }))

  closing_session :
      (r : Result (Unit {0})) (s : World)
      → Outcome public_id id d (r, s)
      → Outcome public_id id d (r, refresh s)
  closing_session (ok u) s h = record {
    session = h.session;
    payment = h.payment;
    recorded = h.recorded;
  }
  closing_session (err e) s h = h

-- A session that is not provisioned yet, and whose package exists, is completed in one piece:
-- `complete_payment` returns, and the session is provisioned and its payment on record, both
-- committed; or it raises, and then either nothing is committed, or the payments are as they were and
-- the session is left as one whose activation failed.
pub complete_payment-Outcome :
    (public_id : String) (receipt description : Option String) (row : PaymentSession)
    (pkg : Package) (s : World)
    → lookup_session public_id s.db.payment_sessions ≡ some row
    → same_status row.status Status.provisioned ≡ false
    → find (λ p. p.id == row.package_id) s.db.packages ≡ some pkg
    → Outcome public_id row.id s.db (complete_payment public_id receipt "0" description s)
unfolding complete_payment ◌>>=◌ with_session get_payment_session_by_public_id
complete_payment-Outcome public_id receipt description row pkg s found due sold = rw found (
    closing_session public_id row.id s.db
      (complete_found receipt "0" description (some row) (refresh s)).0 _
      (complete_found-Outcome public_id row.id s.db row pkg receipt description "0" (refresh s)
        found refl due sold refl refl))

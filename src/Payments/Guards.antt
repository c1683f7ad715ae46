-- ===== src/Payments/Guards.antt =====
-- services/payment_service.py: what the guards of the payment's functions keep out.
use mikrotik.Prelude.{String, ◌≡◌, Bool, true, false, Option, some, arith, is_some, str_eq, refl}
use mikrotik.Models.{PaymentSession, Status}
use mikrotik.World.{World, ok, err, fault, refresh, ◌>>=◌, with_session}
use mikrotik.Crud.{lookup_session, same_status, get_payment_session_by_public_id}
use mikrotik.Access.{not_hotspot}
use mikrotik.Payments.{
  PublicResponse, public_response, still_shown, complete_payment, mark_manual_review,
}

pub same_status-provisioned :
    (a : Status) → same_status a Status.provisioned ≡ true → a ≡ Status.provisioned
same_status-provisioned Status.created h = cc
same_status-provisioned Status.pending h = cc
same_status-provisioned Status.paid h = cc
same_status-provisioned Status.provisioning h = cc
same_status-provisioned Status.provisioned h = refl
same_status-provisioned Status.provisioning_failed h = cc
same_status-provisioned Status.manual_review h = cc
same_status-provisioned Status.failed h = cc

-- A response shows credentials only of a session that is provisioned, for hotspot access, and only
-- until they expire.
pub credentials_guarded :
    (row : PaymentSession) (include_token : Bool) (s : World) (response : PublicResponse)
    → (public_response row include_token s).0 ≡ ok response
    → is_some response.credentials ≡ true
    → (row.status ≡ Status.provisioned)
      × (not_hotspot row.service_type ≡ false)
      × (still_shown row.credentials_expires_at s.now ≡ true)
unfolding public_response ◌>>=◌
credentials_guarded row include_token s response h shown =
    (ground (arith, same_status-provisioned row.status), ground arith, ground arith)

-- A session that is provisioned already is completed without an effect: `complete_payment` returns,
-- and nothing is written.
pub complete_payment-provisioned :
    (public_id : String) (receipt description : Option String) (row : PaymentSession) (s : World)
    → lookup_session public_id s.db.payment_sessions ≡ some row
    → row.status ≡ Status.provisioned
    → complete_payment public_id receipt "0" description s ≡ (ok tt, refresh s)
unfolding complete_payment ◌>>=◌ with_session get_payment_session_by_public_id
complete_payment-provisioned public_id receipt description row s found settled =
    rw (found, settled) refl

-- A result code other than `"0"` never completes a payment, whatever the session: the call raises and
-- the world is as it was.
pub complete_payment-unsuccessful :
    (public_id result_code : String) (receipt description : Option String) (s : World)
    → str_eq result_code "0" ≡ false
    → complete_payment public_id receipt result_code description s
      ≡ (err (fault "complete_payment requires a successful provider result code"), s)
unfolding complete_payment ◌>>=◌
complete_payment-unsuccessful public_id result_code receipt description s code = rw code refl

-- A provisioned session is never sent to manual review.
pub mark_manual_review-provisioned :
    (public_id reason : String) (row : PaymentSession) (s : World)
    → lookup_session public_id s.db.payment_sessions ≡ some row
    → row.status ≡ Status.provisioned
    → mark_manual_review public_id reason s ≡ (ok tt, refresh s)
unfolding mark_manual_review ◌>>=◌ with_session get_payment_session_by_public_id
mark_manual_review-provisioned public_id reason row s found settled = rw (found, settled) refl

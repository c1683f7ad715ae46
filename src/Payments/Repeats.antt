-- ===== src/Payments/Repeats.antt =====
-- services/payment_service.py: a payment that the provider reports more than once.
use mikrotik.Prelude.{ℕ, String, ◌≡◌, Option, some, find, ◌==◌, Bool-cases, inl, inr}
use mikrotik.Models.{Db, PaymentSession, Package, Status}
use mikrotik.World.{World, Result, ok, err, refresh}
use mikrotik.Crud.{lookup_session, same_status}
use mikrotik.Payments.{complete_payment}
use mikrotik.Payments.Guards.{complete_payment-provisioned, same_status-provisioned}
use mikrotik.Payments.Outcomes.{Outcome, complete_payment-Outcome}

again :
    (public_id : String) (receipt description : Option String) (id : ℕ) (d : Db)
    (outcome : Result (Unit {0})) (t : World)
    → Outcome public_id id d (outcome, t)
    → outcome ≡ ok tt
    → complete_payment public_id receipt "0" description t ≡ (ok tt, refresh t)
again public_id receipt description id d (ok u) t paid done =
    complete_payment-provisioned public_id receipt description paid.session.row t paid.session.found
      paid.session.at_status
again public_id receipt description id d (err e) t paid done = cc

-- Once a session's payment was completed, completing it again returns without an effect, whatever
-- receipt and description the provider sends the second time.
pub complete_payment-once :
    (public_id : String) (receipt description receipt' description' : Option String)
    (row : PaymentSession) (pkg : Package) (s : World)
    → lookup_session public_id s.db.payment_sessions ≡ some row
    → find (λ p. p.id == row.package_id) s.db.packages ≡ some pkg
    → (complete_payment public_id receipt "0" description s).0 ≡ ok tt
    → complete_payment public_id receipt' "0" description'
        (complete_payment public_id receipt "0" description s).1
      ≡ (ok tt, refresh (complete_payment public_id receipt "0" description s).1)
complete_payment-once public_id receipt description receipt' description' row pkg s found sold
      done =
    elim (Bool-cases (same_status row.status Status.provisioned)) [
      | inl settled ↦
          rw
            (complete_payment-provisioned public_id receipt description row s found
              (same_status-provisioned row.status settled))
            (complete_payment-provisioned public_id receipt' description' row (refresh s) found
              (same_status-provisioned row.status settled))
      | inr due ↦
          again public_id receipt' description' row.id s.db
            (complete_payment public_id receipt "0" description s).0 _
            (complete_payment-Outcome public_id receipt description row pkg s found due sold) done
    ]

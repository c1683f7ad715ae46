-- ===== src/Payments/Ledger/Runs.antt =====
-- services/payment_service.py: the transactions of the service as steps, in any order and with any
-- arguments, so that the transactions of several requests may alternate.
use mikrotik.Prelude.{ℕ, String, ◌≡◌, true, Option, List, sym, subst}
use mikrotik.Models.{Db, AdminUser, Payment}
use mikrotik.World.{World, Call}
use mikrotik.Access.{cleanup_one}
use mikrotik.Providers.{ProviderInitiation, MpesaValues, KopokopoValues}
use mikrotik.Routers.{delete_transaction}
use mikrotik.Payments.{
  Attempt, start_transaction, prepare_payment_access, log_prepare_failure, fail_initiation,
  record_initiation, mpesa_transaction, kopokopo_transaction, complete_payment, mark_manual_review,
  poll_transaction, record_provider_query_state, expire_payment_sessions,
}
use mikrotik.Payments.Ledger.{settled, still_recorded, still_refl}
use mikrotik.Payments.Ledger.Frames.{HasLedger, IsLedger}
use mikrotik.Payments.Ledger.Completion.{
  complete_payment-Keeps, mark_manual_review-Keeps, mpesa_transaction-Keeps,
  kopokopo_transaction-Keeps,
}
use mikrotik.Payments.Ledger.Requests.{
  start_transaction-Keeps, prepare_payment_access-Keeps, log_prepare_failure-Keeps,
  fail_initiation-Keeps, record_initiation-Keeps, poll_transaction-Keeps,
  record_provider_query_state-Keeps,
}
use mikrotik.Payments.Ledger.Upkeep.{
  expire_payment_sessions-Keeps, cleanup_one-Keeps, delete_transaction-Keeps,
}

-- One transaction, whether it returns or raises, or what happens outside the payment service.
pub data Step : World → World → Type 0 where
  -- `create_public_payment`
  opened : (slug : String) (a : Attempt) (s : World) → Step s (start_transaction slug a s).1
  prepared : (public_id : String) (s : World) → Step s (prepare_payment_access public_id s).1
  preparation_failed : (public_id : String) (s : World) → Step s (log_prepare_failure public_id s).1
  initiation_failed : (public_id : String) (s : World) → Step s (fail_initiation public_id s).1
  initiated :
      (public_id : String) (initiation : ProviderInitiation) (s : World)
      → Step s (record_initiation public_id initiation s).1
  -- the two callbacks
  mpesa_called : (values : MpesaValues) (s : World) → Step s (mpesa_transaction values s).1
  kopokopo_called : (values : KopokopoValues) (s : World) → Step s (kopokopo_transaction values s).1
  completed :
      (public_id : String) (receipt : Option String) (code : String) (description : Option String)
      (s : World)
      → Step s (complete_payment public_id receipt code description s).1
  reviewed :
      (public_id reason : String) (s : World) → Step s (mark_manual_review public_id reason s).1
  -- `get_public_payment` and the reconciliation
  polled : (public_id token : String) (s : World) → Step s (poll_transaction public_id token s).1
  query_noted :
      (public_id code : String) (description : Option String) (s : World)
      → Step s (record_provider_query_state public_id code description s).1
  -- the jobs, and the deletion of a router
  expired : (s : World) → Step s (expire_payment_sessions s).1
  cleaned : (public_id : String) (s : World) → Step s (cleanup_one public_id s).1
  router_deleted :
      (router_uid : String) (user : AdminUser) (s : World)
      → Step s (delete_transaction router_uid user s).1
  -- time passes, the outside is asked, and the other services write the other tables
  elsewhere :
      (s : World) (d : Db) (time drawn : ℕ) (asked : List Call)
      → d.payment_sessions ≡ s.db.payment_sessions
      → d.payments ≡ s.db.payments
      → Step s (record s { db = d; session = d; now = time; draws = drawn; calls = asked })

pub data Run : World → World → Type 0 where
  idle : (s : World) → Run s s
  after : (r s t : World) → Run r s → Step s t → Run r t

module _ (before : List Payment) where
  Step-HasLedger : (s t : World) → Step s t → HasLedger before s → HasLedger before t
  Step-HasLedger _ _ (Step.opened slug a s) h = (start_transaction-Keeps before slug a).at s h
  Step-HasLedger _ _ (Step.prepared public_id s) h =
      (prepare_payment_access-Keeps before public_id).at s h
  Step-HasLedger _ _ (Step.preparation_failed public_id s) h =
      (log_prepare_failure-Keeps before public_id).at s h
  Step-HasLedger _ _ (Step.initiation_failed public_id s) h =
      (fail_initiation-Keeps before public_id).at s h
  Step-HasLedger _ _ (Step.initiated public_id initiation s) h =
      (record_initiation-Keeps before public_id initiation).at s h
  Step-HasLedger _ _ (Step.mpesa_called values s) h = (mpesa_transaction-Keeps before values).at s h
  Step-HasLedger _ _ (Step.kopokopo_called values s) h =
      (kopokopo_transaction-Keeps before values).at s h
  Step-HasLedger _ _ (Step.completed public_id receipt code description s) h =
      (complete_payment-Keeps before public_id receipt code description).at s h
  Step-HasLedger _ _ (Step.reviewed public_id reason s) h =
      (mark_manual_review-Keeps before public_id reason).at s h
  Step-HasLedger _ _ (Step.polled public_id token s) h =
      (poll_transaction-Keeps before public_id token).at s h
  Step-HasLedger _ _ (Step.query_noted public_id code description s) h =
      (record_provider_query_state-Keeps before public_id code description).at s h
  Step-HasLedger _ _ (Step.expired s) h = (expire_payment_sessions-Keeps before).at s h
  Step-HasLedger _ _ (Step.cleaned public_id s) h = (cleanup_one-Keeps before public_id).at s h
  Step-HasLedger _ _ (Step.router_deleted router_uid user s) h =
      (delete_transaction-Keeps before router_uid user).at s h
  Step-HasLedger _ _ (Step.elsewhere s d time drawn asked rows payments) h =
      let there : IsLedger before d = record {
        sessions = rw (rows, payments) h.committed.sessions;
        payments = rw payments h.committed.payments;
      } in
      record { committed = there; working = there }

  Run-HasLedger : (s t : World) → Run s t → HasLedger before s → HasLedger before t
  Run-HasLedger _ _ (Run.idle s) h = h
  Run-HasLedger _ _ (Run.after r s t run step) h = Step-HasLedger s t step (Run-HasLedger r s run h)

-- In every run of the payment service, whatever its transactions are and however they alternate: if
-- it starts with no session open and every provisioned session has its payment on record, it ends so,
-- and what was on record at the start is still on record.
pub Run-settled :
    (s t : World)
    → s.session ≡ s.db
    → settled s.db ≡ true
    → Run s t
    → (settled t.db ≡ true) × (still_recorded s.db.payments t.db.payments ≡ true)
Run-settled s t closed held run =
    let start : IsLedger s.db.payments s.db = record {
      sessions = held;
      payments = still_refl s.db.payments;
    } in
    let h =
      Run-HasLedger s.db.payments s t run (record {
        committed = start;
        working = subst (IsLedger s.db.payments) (sym closed) start;
      }) in
    (h.committed.sessions, h.committed.payments)

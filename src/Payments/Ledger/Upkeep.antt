-- ===== src/Payments/Ledger/Upkeep.antt =====
-- services/payment_service.py, access_service.py, router_service.py: the jobs and the deletion of a router
-- keep the ledger.
use mikrotik.Prelude.{
  ℕ, String, ◌≡◌, refl, true, false, Option, none, some, List, [], ◌∷◌, arith, ◌&&◌, all,
  Bool-cases, inl, inr, ◌==◌,
}
use mikrotik.Models.{AdminUser, PaymentSession, Payment, HotspotUser, Router, Status}
use mikrotik.World.{Exn, http, integrity, fault, write}
use mikrotik.World.Keeps.{Keeps, keeps_rules, Keeps-bind, Keeps-pure}
use mikrotik.World.Frames.{quiet_rules}
use mikrotik.Crud.{same_status, get_payment_session_by_public_id, get_router_by_uid}
use mikrotik.Mikrotik.Frames.{delete_hotspot_access-Keeps}
use mikrotik.Access.{
  cleanup_one, clean_found, cleanup_prepared_hotspot_session, drop_prepared, delete_hotspot_user,
}
use mikrotik.Routers.{
  delete_transaction, retire_router, not_safe, stop_unpaid, review_unfinished, retire_packages,
  save_router, is_unpaid, is_unfinished,
}
use mikrotik.Payments.{expire_payment_sessions, expire_rows, is_overdue}
use mikrotik.Payments.Ledger.{is_settled}
use mikrotik.Payments.Ledger.Frames.{
  HasLedger, save-Keeps, create_log-Keeps, commit-Keeps, rollback-Keeps, with_session-Keeps,
  ledger-quiet,
}

pub failed-open :
    (status : Status)
    → same_status status Status.failed ≡ true
    → same_status status Status.provisioned ≡ false
failed-open Status.failed h = refl
failed-open Status.provisioned h = cc
failed-open Status.created h = refl
failed-open Status.paid h = refl
failed-open Status.provisioning h = refl
failed-open Status.provisioning_failed h = refl
failed-open Status.manual_review h = refl
failed-open Status.pending h = refl

expire_rows-settled :
    (payments : List Payment) (now : ℕ) (rows : List PaymentSession)
    → all (is_settled payments) rows ≡ true
    → all (is_settled payments) (expire_rows now rows) ≡ true
unfolding expire_rows
expire_rows-settled payments now [] h = refl
expire_rows-settled payments now (x ∷ rows) h =
    let rest = expire_rows-settled payments now rows in
    elim (Bool-cases (is_overdue now x)) [
      | inl hit ↦ rw hit (ground (arith, rest))
      | inr other ↦ rw other (ground (arith, rest))
    ]

stop_unpaid-settled :
    (payments : List Payment) (id now : ℕ) (rows : List PaymentSession)
    → all (is_settled payments) rows ≡ true
    → all (is_settled payments) (stop_unpaid id now rows) ≡ true
unfolding stop_unpaid
stop_unpaid-settled payments id now [] h = refl
stop_unpaid-settled payments id now (x ∷ rows) h =
    let rest = stop_unpaid-settled payments id now rows in
    elim (Bool-cases (x.router_id == id && is_unpaid x.status)) [
      | inl hit ↦ rw hit (ground (arith, rest))
      | inr other ↦ rw other (ground (arith, rest))
    ]

review_unfinished-settled :
    (payments : List Payment) (id now : ℕ) (rows : List PaymentSession)
    → all (is_settled payments) rows ≡ true
    → all (is_settled payments) (review_unfinished id now rows) ≡ true
unfolding review_unfinished
review_unfinished-settled payments id now [] h = refl
review_unfinished-settled payments id now (x ∷ rows) h =
    let rest = review_unfinished-settled payments id now rows in
    elim (Bool-cases (x.router_id == id && is_unfinished x.status)) [
      | inl hit ↦ rw hit (ground (arith, rest))
      | inr other ↦ rw other (ground (arith, rest))
    ]

module _ (before : List Payment) where
  expiry-Keeps :
      (now : ℕ)
      → Keeps
          (HasLedger before)
          (write (λ d. record d { payment_sessions = expire_rows now d.payment_sessions }))
  unfolding write expire_rows
  expiry-Keeps now = record {
    at = λ s h. record {
      committed = h.committed;
      working = record {
        sessions =
            expire_rows-settled s.session.payments now s.session.payment_sessions
              h.working.sessions;
        payments = h.working.payments;
      };
    };
  }

  pub expire_payment_sessions-Keeps : Keeps (HasLedger before) expire_payment_sessions
  unfolding expire_payment_sessions
  expire_payment_sessions-Keeps =
      with_session-Keeps before _ (search (keeps_rules, expiry-Keeps, commit-Keeps) depth 9)

  delete_hotspot_user-Keeps :
      (user : HotspotUser) → Keeps (HasLedger before) (delete_hotspot_user user)
  unfolding delete_hotspot_user write
  delete_hotspot_user-Keeps user = record {
    at = λ s h. record {
      committed = h.committed;
      working = record { sessions = h.working.sessions; payments = h.working.payments };
    };
  }

  drop_prepared-Keeps :
      (row : PaymentSession) (username : String) (found : Option HotspotUser)
      → same_status row.status Status.provisioned ≡ false
      → Keeps (HasLedger before) (drop_prepared row username found)
  unfolding drop_prepared
  drop_prepared-Keeps row username none open_row = Keeps-pure false
  drop_prepared-Keeps row username (some user) open_row =
      Keeps-bind _ _ (delete_hotspot_access-Keeps (ledger-quiet before) _ username) λ _.
        Keeps-bind _ _ (delete_hotspot_user-Keeps user)
          λ _. Keeps-bind _ _ (save-Keeps before _ open_row) λ _. search (keeps_rules, quiet_rules)

  cleanup-Keeps :
      (row : PaymentSession)
      → same_status row.status Status.provisioned ≡ false
      → Keeps (HasLedger before) (cleanup_prepared_hotspot_session row)
  unfolding cleanup_prepared_hotspot_session
  cleanup-Keeps row open_row = search (keeps_rules, drop_prepared-Keeps) depth 9

  clean_found-Keeps : (found : Option PaymentSession) → Keeps (HasLedger before) (clean_found found)
  unfolding clean_found
  clean_found-Keeps none = Keeps-pure false
  clean_found-Keeps (some row) =
      search (keeps_rules, cleanup-Keeps, commit-Keeps, failed-open row.status) depth 9

  pub cleanup_one-Keeps : (public_id : String) → Keeps (HasLedger before) (cleanup_one public_id)
  unfolding cleanup_one get_payment_session_by_public_id
  cleanup_one-Keeps public_id =
      with_session-Keeps before _ (search (keeps_rules, clean_found-Keeps))

  retiring-Keeps :
      (id now : ℕ)
      → Keeps (HasLedger before) (
          write (λ d. record d {
            packages = retire_packages id now d.packages;
            payment_sessions = review_unfinished id now (stop_unpaid id now d.payment_sessions);
          }))
  unfolding write review_unfinished stop_unpaid
  retiring-Keeps id now = record {
    at = λ s h. record {
      committed = h.committed;
      working = record {
        sessions = review_unfinished-settled s.session.payments id now _ (
            stop_unpaid-settled s.session.payments id now s.session.payment_sessions
              h.working.sessions);
        payments = h.working.payments;
      };
    };
  }

  save_router-Keeps : (row : Router) → Keeps (HasLedger before) (save_router row)
  unfolding save_router write
  save_router-Keeps row = record {
    at = λ s h. record {
      committed = h.committed;
      working = record { sessions = h.working.sessions; payments = h.working.payments };
    };
  }

  retire_router-Keeps : (row : Router) → Keeps (HasLedger before) (retire_router row)
  unfolding retire_router
  retire_router-Keeps row =
      search (keeps_rules, retiring-Keeps, save_router-Keeps, create_log-Keeps, commit-Keeps) depth
        14

  not_safe-Keeps : (e : Exn) → Keeps (HasLedger before) (not_safe e)
  unfolding not_safe
  not_safe-Keeps integrity = search (keeps_rules, rollback-Keeps)
  not_safe-Keeps (http code detail) = search keeps_rules
  not_safe-Keeps (fault message) = search keeps_rules

  pub delete_transaction-Keeps :
      (router_uid : String) (user : AdminUser)
      → Keeps (HasLedger before) (delete_transaction router_uid user)
  unfolding delete_transaction get_router_by_uid
  delete_transaction-Keeps router_uid user =
      with_session-Keeps before _
        (search (keeps_rules, retire_router-Keeps, not_safe-Keeps) depth 12)

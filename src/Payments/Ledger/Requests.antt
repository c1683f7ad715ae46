-- ===== src/Payments/Ledger/Requests.antt =====
-- services/payment_service.py: new payments and the polling by customers keep the ledger.
use mikrotik.Prelude.{
  ℕ, String, ◌≡◌, refl, Bool, true, false, Option, none, some, List, [], ◌∷◌, ◌++◌, arith, find,
  Bool-cases, Option-cases, inl, inr, ◌==◌,
}
use mikrotik.Models.{PaymentSession, Payment, Package, Router, Status}
use mikrotik.World.{World, Exn, http, integrity, fault, ◌>>=◌, ◌>>◌, commit, write, pure}
use mikrotik.World.Keeps.{
  Keeps, keeps_rules, Keeps-bind, Keeps-gets, Keeps-pure, Keeps-catch, Keeps-raise_if, Keeps-raise,
  Keeps-bind-Yields, Keeps-then, Keeps-or_raise,
}
use mikrotik.World.Frames.{quiet_rules, Keeps-flush}
use mikrotik.Crud.{
  new_uid, create_log, same_status, get_payment_session_by_public_id,
  get_payment_session_by_idempotency, get_package_by_id, get_package_by_uid,
  get_router_by_portal_slug,
}
use mikrotik.Mikrotik.Frames.{decrypt_secret-Keeps}
use mikrotik.Access.{prepare_paid_hotspot_session, not_hotspot}
use mikrotik.Access.Frames.{prepare_paid_hotspot_session-Keeps}
use mikrotik.Providers.{ProviderInitiation}
use mikrotik.Payments.{
  public_response, add_access, Attempt, new_session, open_session, replay_or_open, replay,
  duplicate, start_transaction, open_portal, prepare_found, prepare_payment_access, log_failure_of,
  log_prepare_failure, fail_found, fail_initiation, record_initiation, session_for_token,
  claim_query, poll_transaction, may_query, record_found, record_provider_query_state,
  recent_attempts,
}
use mikrotik.Payments.Opening.{new_session-Yields}
use mikrotik.Payments.Ledger.{all-append_last, is_settled}
use mikrotik.Payments.Ledger.Frames.{
  HasLedger, HasRow, save-Keeps, create_log-Keeps, commit-Keeps, rollback-Keeps, with_session-Keeps,
  row-frame, found-Keeps, ledger-quiet, next_id-Keeps, settled-unless,
}
use mikrotik.Payments.Ledger.Completion.{published-Keeps, written-Keeps}

pub pending-open :
    (status : Status)
    → same_status status Status.pending ≡ true
    → same_status status Status.provisioned ≡ false
pending-open Status.pending h = refl
pending-open Status.provisioned h = cc
pending-open Status.created h = refl
pending-open Status.paid h = refl
pending-open Status.provisioning h = refl
pending-open Status.provisioning_failed h = refl
pending-open Status.manual_review h = refl
pending-open Status.failed h = refl

pending_of :
    (row : PaymentSession) (now : ℕ)
    → may_query row now ≡ true
    → same_status row.status Status.provisioned ≡ false
unfolding may_query
pending_of row now due = pending-open row.status (ground arith)

module _ (before : List Payment) where
  response-Keeps :
      (row : PaymentSession) (with_token : Bool)
      → Keeps (HasLedger before) (public_response row with_token)
  unfolding public_response add_access
  response-Keeps row with_token =
      search (keeps_rules, decrypt_secret-Keeps, ledger-quiet before) depth 12

  append-Keeps :
      (row : PaymentSession)
      → same_status row.status Status.provisioned ≡ false
      → Keeps
          (HasLedger before)
          (write (λ d. record d { payment_sessions = d.payment_sessions ++ row ∷ [] }))
  unfolding write
  append-Keeps row open_row = record {
    at = λ s h. record {
      committed = h.committed;
      working = record {
        sessions =
            all-append_last (is_settled s.session.payments) s.session.payment_sessions row
              h.working.sessions (settled-unless s.session.payments row open_row);
        payments = h.working.payments;
      };
    };
  }

  new_uid-Keeps : Keeps (HasLedger before) new_uid
  unfolding new_uid
  new_uid-Keeps = search (quiet_rules, ledger-quiet before)

  new_session-Keeps :
      (a : Attempt) (router : Router) (pkg : Package)
      → Keeps (HasLedger before) (new_session a router pkg)
  unfolding new_session
  new_session-Keeps a router pkg = search (keeps_rules, next_id-Keeps, new_uid-Keeps) depth 12

  open_session-Keeps :
      (a : Attempt) (router : Router) (pkg : Package)
      → Keeps (HasLedger before) (open_session a router pkg)
  unfolding open_session recent_attempts
  open_session-Keeps a router pkg = Keeps-bind _ _ (Keeps-gets _) λ count.
      Keeps-bind _ _ (Keeps-gets _) λ limit. Keeps-bind _ _ (Keeps-raise_if _ _) λ _.
        Keeps-bind-Yields _ _ (new_session-Keeps a router pkg) (new_session-Yields a router pkg)
          λ row opened.
            let fresh : same_status row.status Status.provisioned ≡ false = rw opened.status refl in
            Keeps-bind _ _ (append-Keeps row fresh) λ _.
              Keeps-bind _ _ Keeps-flush
                λ _. Keeps-bind _ _ (Keeps-gets _) λ env. written-Keeps before _ _ fresh

  duplicate-Keeps : (e : Exn) → Keeps (HasLedger before) (duplicate e)
  unfolding duplicate
  duplicate-Keeps integrity = search (keeps_rules, rollback-Keeps)
  duplicate-Keeps (http code detail) = search keeps_rules
  duplicate-Keeps (fault message) = search keeps_rules

  replay_or_open-Keeps :
      (a : Attempt) (router : Router) (pkg : Package) (found : Option PaymentSession)
      → Keeps (HasLedger before) (replay_or_open a router pkg found)
  unfolding replay_or_open replay
  replay_or_open-Keeps a router pkg none = search (keeps_rules, open_session-Keeps)
  replay_or_open-Keeps a router pkg (some existing) = search (keeps_rules, response-Keeps)

  open_portal-Keeps : (slug : String) → Keeps (HasLedger before) (open_portal slug)
  unfolding open_portal get_router_by_portal_slug
  open_portal-Keeps slug = search keeps_rules depth 12

  pub start_transaction-Keeps :
      (slug : String) (a : Attempt) → Keeps (HasLedger before) (start_transaction slug a)
  unfolding start_transaction get_package_by_uid get_payment_session_by_idempotency
  start_transaction-Keeps slug a =
      with_session-Keeps before _
        (search (keeps_rules, open_portal-Keeps, replay_or_open-Keeps, duplicate-Keeps) depth 14)

  prepared_for :
      (row : PaymentSession) (pkg : Package) (s : World)
      → HasRow before row s
      → HasLedger before
          ((prepare_paid_hotspot_session row pkg
              >> (create_log "Hotspot access prepared" none
                    (some row.router_id)
                    "info"
                    (some "payment.access_prepared")
                  >> (commit >> pure true)))
            s).1
  prepared_for row pkg =
      Keeps-then _ _ (prepare_paid_hotspot_session-Keeps row (row-frame before row) pkg)
        (λ s h. h.ledger) λ _. closing
    where
      closing : Keeps (HasLedger before) (
          create_log "Hotspot access prepared" none
            (some row.router_id)
            "info"
            (some "payment.access_prepared")
          >> (commit >> pure true))
      closing = search (keeps_rules, create_log-Keeps, commit-Keeps)

  prepared-at :
      (row : PaymentSession) (s : World)
      → HasRow before row s
      → HasLedger before (prepare_found (some row) s).1
  unfolding prepare_found get_package_by_id ◌>>=◌
  prepared-at row s h = elim (Bool-cases (not_hotspot row.service_type)) [
    | inl other ↦ rw other h.ledger
    | inr hotspot ↦ elim (Option-cases (find (λ p. p.id == row.package_id) s.session.packages)) [
      | inl missing ↦ rw (hotspot, missing) h.ledger
      | inr (pkg, found) ↦ rw (hotspot, found) (prepared_for row pkg s h)
    ]
  ]

  pub prepare_payment_access-Keeps :
      (public_id : String) → Keeps (HasLedger before) (prepare_payment_access public_id)
  unfolding prepare_payment_access prepare_found
  prepare_payment_access-Keeps public_id = with_session-Keeps before _ (
      Keeps-catch _ _ (found-Keeps before public_id prepare_found (Keeps-pure false) prepared-at)
        λ e. Keeps-bind _ _ (rollback-Keeps before) λ _. Keeps-raise e)

  logged-Keeps : (found : Option PaymentSession) → Keeps (HasLedger before) (log_failure_of found)
  unfolding log_failure_of
  logged-Keeps none = Keeps-pure tt
  logged-Keeps (some row) = search (keeps_rules, create_log-Keeps, commit-Keeps)

  pub log_prepare_failure-Keeps :
      (public_id : String) → Keeps (HasLedger before) (log_prepare_failure public_id)
  unfolding log_prepare_failure get_payment_session_by_public_id
  log_prepare_failure-Keeps public_id =
      with_session-Keeps before _ (search (keeps_rules, logged-Keeps))

  failed-Keeps : (found : Option PaymentSession) → Keeps (HasLedger before) (fail_found found)
  unfolding fail_found
  failed-Keeps none = Keeps-pure tt
  failed-Keeps (some row) = search (keeps_rules, published-Keeps before)

  pub fail_initiation-Keeps :
      (public_id : String) → Keeps (HasLedger before) (fail_initiation public_id)
  unfolding fail_initiation get_payment_session_by_public_id
  fail_initiation-Keeps public_id = with_session-Keeps before _ (search (keeps_rules, failed-Keeps))

  pub record_initiation-Keeps :
      (public_id : String) (initiation : ProviderInitiation)
      → Keeps (HasLedger before) (record_initiation public_id initiation)
  unfolding record_initiation get_payment_session_by_public_id
  record_initiation-Keeps public_id initiation = with_session-Keeps before _ (
      Keeps-bind _ _ (Keeps-gets _) λ found. Keeps-bind _ _ (Keeps-or_raise found _) λ row.
        Keeps-bind _ _ (save-Keeps before _ refl)
          λ _. search (keeps_rules, create_log-Keeps, commit-Keeps, response-Keeps) depth 9)

  session_for_token-Keeps :
      (public_id token : String) → Keeps (HasLedger before) (session_for_token public_id token)
  unfolding session_for_token get_payment_session_by_public_id
  session_for_token-Keeps public_id token = search keeps_rules depth 12

  claim_query-Keeps : (row : PaymentSession) → Keeps (HasLedger before) (claim_query row)
  unfolding claim_query
  claim_query-Keeps row =
      Keeps-bind _ _ (Keeps-gets _)
        λ now. search (keeps_rules, written-Keeps, pending_of row now) depth 9

  pub poll_transaction-Keeps :
      (public_id token : String) → Keeps (HasLedger before) (poll_transaction public_id token)
  unfolding poll_transaction
  poll_transaction-Keeps public_id token =
      with_session-Keeps before _
        (search (keeps_rules, session_for_token-Keeps, claim_query-Keeps, response-Keeps) depth 14)

  recorded-Keeps :
      (code : String) (description : Option String) (found : Option PaymentSession)
      → Keeps (HasLedger before) (record_found code description found)
  unfolding record_found
  recorded-Keeps code description none = Keeps-pure tt
  recorded-Keeps code description (some row) =
      search (keeps_rules, published-Keeps before, pending-open row.status)

  pub record_provider_query_state-Keeps :
      (public_id code : String) (description : Option String)
      → Keeps (HasLedger before) (record_provider_query_state public_id code description)
  unfolding record_provider_query_state get_payment_session_by_public_id
  record_provider_query_state-Keeps public_id code description =
      with_session-Keeps before _ (search (keeps_rules, recorded-Keeps))

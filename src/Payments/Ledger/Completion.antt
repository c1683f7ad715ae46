-- ===== src/Payments/Ledger/Completion.antt =====
-- services/payment_service.py: callbacks, completion, retry and review keep the ledger.
use mikrotik.Prelude.{
  String, ◌≡◌, refl, true, false, Option, none, some, List, Option-cases, inl, inr,
}
use mikrotik.Models.{PaymentSession, Payment, Package, Status}
use mikrotik.World.{World, Exn, pure, ◌>>=◌, ◌>>◌, commit, write, modify}
use mikrotik.World.Keeps.{
  Keeps, keeps_rules, Keeps-bind, Keeps-gets, Keeps-pure, Keeps-catch, Keeps-raise_if, Keeps-raise,
}
use mikrotik.Crud.{
  next_id, new_uid, create_log, same_status, save_session, get_payment_session_by_public_id,
  get_payment_session_by_provider_id, get_package_by_id,
}
use mikrotik.Access.{Provisioned}
use mikrotik.Access.Frames.{provision_paid_session-Keeps}
use mikrotik.Providers.{MpesaValues, KopokopoValues}
use mikrotik.Payments.{
  record_paid, activate, activation_failed, mark_activation_failed, complete_with, complete_found,
  complete_payment, review_found, mark_manual_review, mpesa_found, mpesa_transaction,
  kopokopo_found, kopokopo_transaction,
}
use mikrotik.Payments.Recording.{paid_for}
use mikrotik.Payments.Ledger.{is_recorded, recorded-added, settled-append, still-append}
use mikrotik.Payments.Ledger.Frames.{
  HasLedger, save-at, save-Keeps, create_log-Keeps, commit-Keeps, rollback-Keeps,
  with_session-Keeps, open-frame,
}

module _ (before : List Payment) where
  -- A row that is not provisioned is written and published.
  pub published-Keeps :
      (row : PaymentSession)
      → same_status row.status Status.provisioned ≡ false
      → Keeps (HasLedger before) (save_session row >> commit)
  published-Keeps row open_row =
      Keeps-bind _ _ (save-Keeps before row open_row) λ _. commit-Keeps before

  pub written-Keeps :
      {A : Type 0} (row : PaymentSession) (a : A)
      → same_status row.status Status.provisioned ≡ false
      → Keeps (HasLedger before) (save_session row >> (commit >> pure a))
  written-Keeps row a open_row =
      Keeps-bind _ _ (save-Keeps before row open_row)
        λ _. Keeps-bind _ _ (commit-Keeps before) λ _. Keeps-pure a

  -- A provisioned row is written once its payment is on record.
  paid-at :
      (row : PaymentSession) (s : World)
      → HasLedger before s
      → is_recorded s.session.payments row.public_id ≡ true
      → HasLedger before
          ((save_session (record row {
            status = Status.provisioned;
            result_description = some "Payment confirmed and access activated";
          })
              >> (create_log "Payment provisioned" none
                    (some row.router_id)
                    "info"
                    (some "payment.provisioned")
                  >> commit))
            s).1
  unfolding ◌>>=◌ save_session modify
  paid-at row s h recorded =
      (Keeps-bind _ _ (create_log-Keeps before _ _ _ _ _) λ _. commit-Keeps before).at _
        (save-at before _ s h recorded)

  record_paid-Keeps :
      (receipt : Option String) (p : Provisioned) → Keeps (HasLedger before) (record_paid receipt p)
  unfolding record_paid ◌>>=◌ next_id new_uid write
  record_paid-Keeps receipt p = record {
    at = λ s h. elim (Option-cases (paid_for p.2.public_id s.session.payments)) [
      | inr (payment, e) ↦ rw e (paid-at p.2 s h (rw e refl))
      | inl e ↦ rw e (
          paid-at p.2 _
            (record {
              committed = h.committed;
              working = record {
                sessions =
                    settled-append s.session.payments _ s.session.payment_sessions
                      h.working.sessions;
                payments = still-append before s.session.payments _ h.working.payments;
              };
            })
            (recorded-added s.session.payments _))
    ];
  }

  activation_failed-Keeps :
      (public_id : String) (e : Exn) → Keeps (HasLedger before) (activation_failed public_id e)
  unfolding activation_failed get_payment_session_by_public_id
  activation_failed-Keeps public_id e =
      Keeps-bind _ _ (rollback-Keeps before)
        λ _. Keeps-bind _ _ (Keeps-gets _) λ found. Keeps-bind _ _ (marked found) λ _. Keeps-raise e
    where
      marked :
          (found : Option PaymentSession) → Keeps (HasLedger before) (mark_activation_failed found)
      marked none = Keeps-pure tt
      marked (some row) =
          Keeps-bind _ _ (save-Keeps before _ refl)
            λ _. Keeps-bind _ _ (create_log-Keeps before _ _ _ _ _) λ _. commit-Keeps before

  complete_with-Keeps :
      (row : PaymentSession) (receipt : Option String) (pkg : Option Package)
      → same_status row.status Status.provisioned ≡ false
      → Keeps (HasLedger before) (complete_with row receipt pkg)
  unfolding complete_with activate
  complete_with-Keeps row receipt none open_row = published-Keeps _ refl
  complete_with-Keeps row receipt (some pkg) open_row =
      Keeps-catch _ _
        (Keeps-bind _ _ (provision_paid_session-Keeps row (open-frame before row open_row) pkg)
          λ p. record_paid-Keeps receipt p)
        λ e. activation_failed-Keeps row.public_id e

  complete_found-Keeps :
      (receipt : Option String) (code : String) (description : Option String)
      (found : Option PaymentSession)
      → Keeps (HasLedger before) (complete_found receipt code description found)
  unfolding complete_found get_package_by_id
  complete_found-Keeps receipt code description none = Keeps-pure tt
  complete_found-Keeps receipt code description (some row) =
      search (keeps_rules, save-Keeps before, complete_with-Keeps) depth 12

  pub complete_payment-Keeps :
      (public_id : String) (receipt : Option String) (code : String) (description : Option String)
      → Keeps (HasLedger before) (complete_payment public_id receipt code description)
  unfolding complete_payment get_payment_session_by_public_id
  complete_payment-Keeps public_id receipt code description =
      Keeps-bind _ _ (Keeps-raise_if _ _) λ _.
        with_session-Keeps before _ (
          Keeps-bind _ _ (Keeps-gets _)
            λ found. complete_found-Keeps receipt code description found)

  review_found-Keeps :
      (reason : String) (found : Option PaymentSession)
      → Keeps (HasLedger before) (review_found reason found)
  unfolding review_found
  review_found-Keeps reason none = Keeps-pure tt
  review_found-Keeps reason (some row) = search (keeps_rules, published-Keeps)

  pub mark_manual_review-Keeps :
      (public_id reason : String) → Keeps (HasLedger before) (mark_manual_review public_id reason)
  unfolding mark_manual_review get_payment_session_by_public_id
  mark_manual_review-Keeps public_id reason =
      with_session-Keeps before _
        (Keeps-bind _ _ (Keeps-gets _) λ found. review_found-Keeps reason found)

  mpesa_found-Keeps :
      (values : MpesaValues) (found : Option PaymentSession)
      → Keeps (HasLedger before) (mpesa_found values found)
  unfolding mpesa_found
  mpesa_found-Keeps values none = Keeps-pure none
  mpesa_found-Keeps values (some row) = search (keeps_rules, written-Keeps)

  pub mpesa_transaction-Keeps :
      (values : MpesaValues) → Keeps (HasLedger before) (mpesa_transaction values)
  unfolding mpesa_transaction get_payment_session_by_provider_id
  mpesa_transaction-Keeps values =
      with_session-Keeps before _
        (Keeps-bind _ _ (Keeps-gets _) λ found. mpesa_found-Keeps values found)

  kopokopo_found-Keeps :
      (values : KopokopoValues) (found : Option PaymentSession)
      → Keeps (HasLedger before) (kopokopo_found values found)
  unfolding kopokopo_found
  kopokopo_found-Keeps values none = Keeps-pure none
  kopokopo_found-Keeps values (some row) = search (keeps_rules, written-Keeps)

  pub kopokopo_transaction-Keeps :
      (values : KopokopoValues) → Keeps (HasLedger before) (kopokopo_transaction values)
  unfolding kopokopo_transaction get_payment_session_by_public_id
  kopokopo_transaction-Keeps values =
      with_session-Keeps before _
        (Keeps-bind _ _ (Keeps-gets _) λ found. kopokopo_found-Keeps values found)

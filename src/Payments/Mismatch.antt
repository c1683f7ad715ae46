-- ===== src/Payments/Mismatch.antt =====
-- services/payment_service.py: a callback that does not fit its payment session records no payment.
use mikrotik.Prelude.{
  String, ◌≡◌, ◌⊎◌, inl, inr, true, not, ◌||◌, Option, some, none, List, find, opt_eq, str_eq,
  or_text, refl, Bool-cases, truthy?,
}
use mikrotik.Models.{PaymentSession, Payment, constraints_hold}
use mikrotik.World.{
  World, App, Result, ok, err, ◌>>=◌, with_session, commit, refresh, continue, modify, pure, ◌>>◌,
}
use mikrotik.World.Keeps.{
  Keeps, keeps_rules, Keeps-bind, Keeps-gets, Keeps-pure, Yields, Yields-then, Yields-pure,
  Yields-if, Keeps-if,
}
use mikrotik.Crud.{
  save_session, get_payment_session_by_public_id, get_payment_session_by_provider_id,
  lookup_session,
}
use mikrotik.Providers.{MpesaValues, amount_matches, KopokopoValues}
use mikrotik.Payments.{
  process_mpesa_callback, mpesa_transaction, mpesa_found, mpesa_pending, mark_manual_review,
  review_found, kopokopo_found, kopokopo_transaction, kopokopo_pending, process_kopokopo_callback,
  kopokopo_failed, ignores_callbacks,
}

module _ (payments : List Payment) where
  -- The payments on record are these, committed and in the open session.
  pub record HasPayments (s : World) : Type 0 where
    pub committed : s.db.payments ≡ payments
    pub working : s.session.payments ≡ payments

  save_session-Keeps : (row : PaymentSession) → Keeps HasPayments (save_session row)
  unfolding save_session modify
  save_session-Keeps row = record {
    at = λ s h. record { committed = h.committed; working = h.working };
  }

  commit-Keeps : Keeps HasPayments commit
  unfolding commit
  commit-Keeps = record {
    at = λ s h. elim (Bool-cases (constraints_hold s.session)) [
      | inl fits ↦ rw fits (record { committed = h.working; working = h.working })
      | inr clashes ↦ rw clashes h
    ];
  }

  with_session-Keeps :
      {A : Type 0} (m : App A) → Keeps HasPayments m → Keeps HasPayments (with_session m)
  unfolding with_session
  with_session-Keeps m km = record {
    at = λ s h.
        let after = km.at (refresh s) (record { committed = h.committed; working = h.committed }) in
        record { committed = after.committed; working = after.committed };
  }

  review_found-Keeps :
      (reason : String) (found : Option PaymentSession)
      → Keeps HasPayments (review_found reason found)
  unfolding review_found
  review_found-Keeps reason none = Keeps-pure _
  review_found-Keeps reason (some row) = search (keeps_rules, save_session-Keeps, commit-Keeps)

  mark_manual_review-Keeps :
      (public_id reason : String) → Keeps HasPayments (mark_manual_review public_id reason)
  unfolding mark_manual_review get_payment_session_by_public_id
  mark_manual_review-Keeps public_id reason =
      with_session-Keeps _ (Keeps-bind _ _ (Keeps-gets _) λ found. review_found-Keeps reason found)

  mpesa_found-Keeps :
      (values : MpesaValues) (found : Option PaymentSession)
      → Keeps HasPayments (mpesa_found values found)
  unfolding mpesa_found
  mpesa_found-Keeps values none = Keeps-pure _
  mpesa_found-Keeps values (some row) = search (keeps_rules, save_session-Keeps, commit-Keeps)

  mpesa_pending-Keeps :
      (values : MpesaValues) (row : PaymentSession)
      → (not (amount_matches values.amount row.amount)
          || not (str_eq values.phone row.phone_number))
        ≡ true
      → Keeps HasPayments (mpesa_pending values (some row))
  unfolding mpesa_pending
  mpesa_pending-Keeps values row off = rw off (mark_manual_review-Keeps _ _)

mpesa_found-Yields :
    (values : MpesaValues) (row : PaymentSession)
    → Yields (λ o. (o ≡ none) ⊎ (o ≡ some row)) (mpesa_found values (some row))
unfolding mpesa_found
mpesa_found-Yields values row = Yields-if _ _ _ (Yields-pure _ (inl refl)) (
    Yields-if _ _ _ (Yields-then _ _ λ _. Yields-then _ _ λ _. Yields-pure _ (inl refl))
      (Yields-pure _ (inr refl)))

going_on :
    (values : MpesaValues) (row : PaymentSession) (payments : List Payment)
    (r : Result (Option PaymentSession)) (s : World)
    → (not (amount_matches values.amount row.amount) || not (str_eq values.phone row.phone_number))
      ≡ true
    → HasPayments payments s
    → ((o : Option PaymentSession) → r ≡ ok o → (o ≡ none) ⊎ (o ≡ some row))
    → HasPayments payments (continue (r, s) (mpesa_pending values)).1
unfolding mpesa_pending pure
going_on values row payments (err e) s off h same = h
going_on values row payments (ok o) s off h same = elim (same o refl) [
  | inl none_left ↦ rw none_left h
  | inr it ↦ rw it ((mpesa_pending-Keeps payments values row off).at s h)
]

-- An M-Pesa callback whose amount is not the session's amount, or whose phone is not the session's phone,
-- leaves the payments on record as they were, whatever else it says.
pub mpesa_mismatch-payments :
    (values : MpesaValues) (row : PaymentSession) (s : World)
    → find
        (λ r. opt_eq r.provider_request_id (or_text values.provider_request_id ""))
        s.db.payment_sessions
      ≡ some row
    → (not (amount_matches values.amount row.amount) || not (str_eq values.phone row.phone_number))
      ≡ true
    → (process_mpesa_callback values s).1.db.payments ≡ s.db.payments
unfolding process_mpesa_callback mpesa_transaction get_payment_session_by_provider_id ◌>>=◌
    with_session
mpesa_mismatch-payments values row s found off =
    elim (Bool-cases (truthy? values.provider_request_id)) [
      | inr unnamed ↦ rw unnamed refl
      | inl named ↦
          rw (named, found)
            (going_on values row s.db.payments (mpesa_found values (some row) (refresh s)).0
              (refresh (mpesa_found values (some row) (refresh s)).1) off
              (record { committed = after.committed; working = after.committed })
              ((mpesa_found-Yields values row).at (refresh s))).committed
    ]
  where
    after : HasPayments s.db.payments (mpesa_found values (some row) (refresh s)).1
    after =
        (mpesa_found-Keeps s.db.payments values (some row)).at (refresh s)
          (record { committed = refl; working = refl })

kopokopo_found-Yields :
    (values : KopokopoValues) (row : PaymentSession)
    → (not (amount_matches values.amount row.amount) || not (str_eq values.phone row.phone_number))
      ≡ true
    → Yields (λ o. o ≡ none) (kopokopo_found values (some row))
unfolding kopokopo_found
kopokopo_found-Yields values row off = rw off (
    Yields-if _ _ _ (Yields-pure _ refl) (
      Yields-if _ _ _ (Yields-then _ _ λ _. Yields-then _ _ λ _. Yields-pure _ refl)
        (Yields-then _ _ λ _. Yields-then _ _ λ _. Yields-pure _ refl)))

writing-Keeps :
    (payments : List Payment) (row : PaymentSession)
    → Keeps
        (HasPayments payments)
        (save_session row >> (commit >> pure {A = Option PaymentSession} none))
writing-Keeps payments row =
    Keeps-bind _ _ (save_session-Keeps payments row)
      λ _. Keeps-bind _ _ (commit-Keeps payments) λ _. Keeps-pure _

kopokopo_found-Keeps :
    (payments : List Payment) (values : KopokopoValues) (row : PaymentSession)
    → Keeps (HasPayments payments) (kopokopo_found values (some row))
unfolding kopokopo_found
kopokopo_found-Keeps payments values row =
    Keeps-if (not (str_eq row.provider "kopokopo") || ignores_callbacks row.status) _ _
      (λ _. Keeps-pure none)
      λ _.
        Keeps-if (not (str_eq values.status "success")) _ _
          (λ _. writing-Keeps payments (kopokopo_failed values row))
          λ _.
            Keeps-if
              (not (amount_matches values.amount row.amount)
                || not (str_eq values.phone row.phone_number))
              _ _ (λ _. writing-Keeps payments _) λ _. Keeps-pure (some row)

stopping :
    (values : KopokopoValues) (payments : List Payment) (r : Result (Option PaymentSession))
    (s : World)
    → HasPayments payments s
    → ((o : Option PaymentSession) → r ≡ ok o → o ≡ none)
    → HasPayments payments (continue (r, s) (kopokopo_pending values)).1
unfolding kopokopo_pending pure
stopping values payments (err e) s h stop = h
stopping values payments (ok o) s h stop = rw (stop o refl) h

-- A Kopo Kopo callback whose amount is not the session's amount, or whose phone is not the session's
-- phone, leaves the payments on record as they were, whatever else it says.
pub kopokopo_mismatch-payments :
    (values : KopokopoValues) (row : PaymentSession) (s : World)
    → lookup_session (or_text values.public_id "") s.db.payment_sessions ≡ some row
    → (not (amount_matches values.amount row.amount) || not (str_eq values.phone row.phone_number))
      ≡ true
    → (process_kopokopo_callback values s).1.db.payments ≡ s.db.payments
unfolding process_kopokopo_callback kopokopo_transaction get_payment_session_by_public_id ◌>>=◌
    with_session
kopokopo_mismatch-payments values row s found off = elim (Bool-cases (truthy? values.public_id)) [
  | inr unnamed ↦ rw unnamed refl
  | inl named ↦
      rw (named, found)
        (stopping values s.db.payments (kopokopo_found values (some row) (refresh s)).0
          (refresh (kopokopo_found values (some row) (refresh s)).1)
          (record { committed = after.committed; working = after.committed })
          ((kopokopo_found-Yields values row off).at (refresh s))).committed
]
  where
    after : HasPayments s.db.payments (kopokopo_found values (some row) (refresh s)).1
    after =
        (kopokopo_found-Keeps s.db.payments values row).at (refresh s)
          (record { committed = refl; working = refl })

-- ===== src/Payments/Totals.antt =====
-- services/payment_service.py: reconciliation, the expiry of sessions, and the manual retry.
use mikrotik.World.Returns.{commit-returned}
use mikrotik.Prelude.{
  ℕ, ◌+◌, ◌≡◌, String, arith, List, [], ◌∷◌, length, refl, ap, ◌∙◌, map, filter, leb, if◌then◌else◌,
  Bool-cases, inl, inr,
}
use mikrotik.Models.{PaymentSession, Status}
use mikrotik.World.{World, Result, ok, err, ◌>>=◌, with_session, Attributes, write, refresh}
use mikrotik.World.Keeps.{Yields, Yields-then, Yields-pure, Yields-if, Yields-bind}
use mikrotik.Payments.{
  Reconciliation, reconcile_one, reconcile_all, reconcile_pending_payments, is_overdue, expire_rows,
  expire_payment_sessions, is_open,
}

-- `n` sessions are left to count.
abbrev pub Tallies : ℕ → Reconciliation → Type 0
Tallies n c = (c.checked ≡ c.provisioned + c.pending + n) × (c.failed ≡ 0)

reconcile_one-Yields :
    (n : ℕ) (public_id : String) (r : Result Attributes) (c : Reconciliation)
    → Tallies (1 + n) c
    → Yields (Tallies n) (reconcile_one public_id r c)
unfolding reconcile_one
reconcile_one-Yields n public_id (err e) c h = Yields-pure _ (omega (arith, h.0), h.1)
reconcile_one-Yields n public_id (ok result) c h =
    Yields-if _ _ _ (Yields-then _ _ λ _. Yields-pure _ (omega (arith, h.0), h.1))
      (Yields-then _ _ λ _. Yields-pure _ (omega (arith, h.0), h.1))

reconcile_all-Yields :
    (found : List (String × String)) (c : Reconciliation)
    → Tallies (length found) c
    → Yields (Tallies 0) (reconcile_all found c)
unfolding reconcile_all
reconcile_all-Yields [] c h = Yields-pure _ h
reconcile_all-Yields ((public_id, request_id) ∷ rest) c h = Yields-then _ _ λ r.
    Yields-bind _ _ (reconcile_one-Yields (length rest) public_id r c (omega (arith, h.0), h.1))
      λ c' h'. reconcile_all-Yields rest c' h'

reconcile-Yields : (limit : ℕ) → Yields (Tallies 0) (reconcile_pending_payments limit)
unfolding reconcile_pending_payments
reconcile-Yields limit = Yields-then _ _ λ found. reconcile_all-Yields found _ (omega arith, refl)

-- When the reconciliation returns, the sessions that it checked are those that it counts as provisioned
-- and those that it counts as pending; it counts none as failed.
pub reconcile-counts :
    (limit : ℕ) (s : World) (c : Reconciliation)
    → (reconcile_pending_payments limit s).0 ≡ ok c
    → (c.checked ≡ c.provisioned + c.pending) × (c.failed ≡ 0)
reconcile-counts limit s c h =
    let (total, none_failed) = (reconcile-Yields limit).at s c h in
    (omega (arith, total), none_failed)

-- The status that a session has after the expiry: one that waits for its payment fails at its deadline.
abbrev pub after_expiry : ℕ → PaymentSession → Status
after_expiry now row = elim row.status [
  | Status.created ↦ if leb row.expires_at now then Status.failed else Status.created
  | Status.pending ↦ if leb row.expires_at now then Status.failed else Status.pending
  | status ↦ status
]

module _ (now : ℕ) where
  expired-status :
      (row : PaymentSession) (rows : List PaymentSession) (status : Status)
      → row.status ≡ status
      → map (λ r. r.status) (expire_rows now (row ∷ rows))
        ≡ after_expiry now row ∷ map (λ r. r.status) (expire_rows now rows)
  unfolding expire_rows is_overdue is_open
  expired-status row rows Status.created h = elim (Bool-cases (leb row.expires_at now)) [
    | inl due ↦ rw (h, due) refl
    | inr early ↦ rw (h, early) refl
  ]
  expired-status row rows Status.pending h = elim (Bool-cases (leb row.expires_at now)) [
    | inl due ↦ rw (h, due) refl
    | inr early ↦ rw (h, early) refl
  ]
  expired-status row rows Status.paid h = rw h refl
  expired-status row rows Status.provisioning h = rw h refl
  expired-status row rows Status.provisioned h = rw h refl
  expired-status row rows Status.provisioning_failed h = rw h refl
  expired-status row rows Status.manual_review h = rw h refl
  expired-status row rows Status.failed h = rw h refl

  expired-statuses :
      (rows : List PaymentSession)
      → map (λ r. r.status) (expire_rows now rows) ≡ map (after_expiry now) rows
  unfolding expire_rows
  expired-statuses [] = refl
  expired-statuses (row ∷ rows) =
      expired-status row rows row.status refl
      ∙ ap (λ statuses. after_expiry now row ∷ statuses) (expired-statuses rows)

-- The expiry, when it returns, has failed exactly the sessions that were created or pending and whose
-- deadline has come; every other session has the status that it had.
pub expire_payment_sessions-statuses :
    (s : World) (count : ℕ)
    → (expire_payment_sessions s).0 ≡ ok count
    → map (λ r. r.status) (expire_payment_sessions s).1.db.payment_sessions
      ≡ map (after_expiry s.now) s.db.payment_sessions
unfolding expire_payment_sessions ◌>>=◌ with_session write
expire_payment_sessions-statuses s count h =
    let expired : World =
      (write (λ d. record d { payment_sessions = expire_rows s.now d.payment_sessions })
        (refresh s)).1 in
    let published =
      commit-returned (length (filter (is_overdue s.now) s.db.payment_sessions)) expired count h in
    ap (λ d. map (λ r. r.status) d.payment_sessions) published
    ∙ expired-statuses s.now s.db.payment_sessions

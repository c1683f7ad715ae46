-- ===== src/Payments/Ledger.antt =====
-- services/payment_service.py: the tables of payment sessions and of payments, put side by side.
pub mod Frames
pub mod Completion
pub mod Requests
pub mod Upkeep
pub mod Runs
use mikrotik.Prelude.{
  ℕ, String, ◌≡◌, refl, Bool, true, some, List, [], ◌∷◌, ◌++◌, str_eq, eq_iff, find, all, is_some,
  arith, Bool-cases, inl, inr, ◌==◌, not, ◌||◌,
}
use mikrotik.Models.{Db, PaymentSession, Payment, Status}
use mikrotik.Crud.{same_status, put_session}
use mikrotik.Crud.Puts.{touch_lem}

-- A payment with this invoice is on record.
abbrev pub is_recorded : List Payment → String → Bool
is_recorded payments invoice = is_some (find (λ row. str_eq row.invoice invoice) payments)

-- The session's payment is on record, if the session is provisioned.
abbrev pub is_settled : List Payment → PaymentSession → Bool
is_settled payments row =
    not (same_status row.status Status.provisioned) || is_recorded payments row.public_id

-- Every provisioned session has its payment.
abbrev pub settled : Db → Bool
settled d = all (is_settled d.payments) d.payment_sessions

-- Of all these payments there is still one with the same invoice.
abbrev pub still_recorded : List Payment → List Payment → Bool
still_recorded before now = all (λ row. is_recorded now row.invoice) before

module _ {ℓ} {A : Type ℓ} where
  pub all-append_last :
      (p : A → Bool) (xs : List A) (x : A)
      → all p xs ≡ true
      → p x ≡ true
      → all p (xs ++ x ∷ []) ≡ true
  all-append_last p [] x h k = ground arith
  all-append_last p (y ∷ xs) x h k = ground (arith, all-append_last p xs x)

  pub all-implied :
      (p q : A → Bool) (xs : List A)
      → ((x : A) → p x ≡ true → q x ≡ true)
      → all p xs ≡ true
      → all q xs ≡ true
  all-implied p q [] step h = refl
  all-implied p q (x ∷ xs) step h = ground (arith, step x, all-implied p q xs step)

  pub find-holds :
      (p t : A → Bool) (xs : List A) (x : A) → all p xs ≡ true → find t xs ≡ some x → p x ≡ true
  find-holds p t [] x h found = cc
  find-holds p t (y ∷ xs) x h found = ground (arith, find-holds p t xs x)

-- A payment that is added leaves on record what was on record.
pub recorded-append :
    (payments : List Payment) (x : Payment) (invoice : String)
    → is_recorded payments invoice ≡ true
    → is_recorded (payments ++ x ∷ []) invoice ≡ true
recorded-append [] x invoice h = cc
recorded-append (y ∷ payments) x invoice h = ground (arith, recorded-append payments x invoice)

-- A payment that is added is on record.
pub recorded-added :
    (payments : List Payment) (x : Payment) → is_recorded (payments ++ x ∷ []) x.invoice ≡ true
recorded-added [] x = ground (arith, eq_iff x.invoice x.invoice)
recorded-added (y ∷ payments) x = ground (arith, recorded-added payments x)

pub settled-append :
    (payments : List Payment) (x : Payment) (rows : List PaymentSession)
    → all (is_settled payments) rows ≡ true
    → all (is_settled (payments ++ x ∷ [])) rows ≡ true
settled-append payments x rows h =
    all-implied _ _ rows (λ row held. ground (arith, recorded-append payments x row.public_id)) h

pub still-append :
    (before payments : List Payment) (x : Payment)
    → still_recorded before payments ≡ true
    → still_recorded before (payments ++ x ∷ []) ≡ true
still-append before payments x h =
    all-implied _ _ before (λ row held. recorded-append payments x row.invoice held) h

recorded-first : (x : Payment) (rows : List Payment) → is_recorded (x ∷ rows) x.invoice ≡ true
recorded-first x rows = rw ((eq_iff x.invoice x.invoice).1 refl) refl

recorded-later :
    (x : Payment) (rows : List Payment) (invoice : String)
    → is_recorded rows invoice ≡ true
    → is_recorded (x ∷ rows) invoice ≡ true
recorded-later x rows invoice h = ground arith

still-among :
    (rows all_rows : List Payment)
    → ((row : Payment)
        → is_recorded rows row.invoice ≡ true
        → is_recorded all_rows row.invoice ≡ true)
    → still_recorded rows all_rows ≡ true
still-among [] all_rows step = refl
still-among (x ∷ rows) all_rows step =
    let first = step x (recorded-first x rows) in
    let rest =
      still-among rows all_rows (λ row h. step row (recorded-later x rows row.invoice h)) in
    rw (first, rest) refl

-- What is on record is still on record.
pub still_refl : (payments : List Payment) → still_recorded payments payments ≡ true
still_refl payments = still-among payments payments (λ row h. h)

-- Rows of which all are settled stay so when a settled row is written.
pub settled-put :
    (payments : List Payment) (now : ℕ) (row : PaymentSession) (rows : List PaymentSession)
    → is_settled payments row ≡ true
    → all (is_settled payments) rows ≡ true
    → all (is_settled payments) (put_session now row rows) ≡ true
unfolding put_session
settled-put payments now row [] held h = refl
settled-put payments now row (old ∷ rows) held h =
    let (t, e) = touch_lem now old row in
    let rest = settled-put payments now row rows held in
    elim (Bool-cases (old.id == row.id)) [
      | inl same ↦ rw (same, e) (ground (arith, rest))
      | inr other ↦ rw other (ground (arith, rest))
    ]

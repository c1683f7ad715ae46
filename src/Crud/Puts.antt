-- ===== src/Crud/Puts.antt =====
-- database/crud.py: a session that is looked up after a row was written.
use mikrotik.Prelude.{
  ℕ, String, ◌≡◌, Bool, true, none, some, List, [], ◌∷◌, ◌++◌, refl, arith, str_eq, eq_iff, find,
  ◌==◌, Bool-cases, inl, inr, ◌∙◌, sym,
}
use mikrotik.Models.{PaymentSession, Status}
use mikrotik.Crud.{lookup_session, put_session, touch, unchanged}

-- The rows have one of this identifier, with this key and this status.
pub record Has (public_id : String) (id : ℕ) (status : Status) (rows : List PaymentSession)
    : Type 0 where
  pub row : PaymentSession
  pub found : lookup_session public_id rows ≡ some row
  pub key : row.id ≡ id
  pub at_status : row.status ≡ status

-- `touch` changes no column but the time of the update.
pub touch_lem :
    (now : ℕ) (old row : PaymentSession)
    → (t : ℕ) × (touch now old row ≡ record row { updated_at = t })
unfolding touch
touch_lem now old row = elim (Bool-cases (unchanged old row)) [
  | inl same ↦ (row.updated_at, rw same)
  | inr changed ↦ (now, rw changed)
]

-- A row that is written under the key of a session is found under its identifier.
pub lookup-put :
    (now : ℕ) (row : PaymentSession) (rows : List PaymentSession) (old : PaymentSession)
    → lookup_session row.public_id rows ≡ some old
    → old.id ≡ row.id
    → (t : ℕ) × (lookup_session row.public_id (put_session now row rows)
        ≡ some (record row { updated_at = t }))
unfolding put_session
lookup-put now row [] old found key = absurd (cc)
lookup-put now row (x ∷ rows) old found key =
    let (t, e) = touch_lem now x row in
    elim (Bool-cases (x.id == row.id)) [
      | inl same ↦ (t, rw same (rw e (rw (eq_iff row.public_id row.public_id).1 refl)))
      | inr other ↦ elim (Bool-cases (str_eq x.public_id row.public_id)) [
        | inl here ↦ absurd (ground arith)
        | inr away ↦
            let (t', e') = lookup-put now row rows old (ground arith) key in
            (t', rw (other, away) e')
      ]
    ]

pub put-Has :
    (now : ℕ) (row : PaymentSession) (rows : List PaymentSession) (public_id : String) (id : ℕ)
    (status : Status)
    → Has public_id id status rows
    → row.public_id ≡ public_id
    → row.id ≡ id
    → Has public_id id row.status (put_session now row rows)
put-Has now row rows public_id id status h same key =
    let (t, e) = lookup-put now row rows h.row (rw same h.found) (h.key ∙ sym key) in
    record {
      row = record row { updated_at = t };
      found = rw (← same) e;
      key = key;
      at_status = refl;
    }

pub lookup-public_id :
    (public_id : String) (rows : List PaymentSession) (row : PaymentSession)
    → lookup_session public_id rows ≡ some row
    → row.public_id ≡ public_id
lookup-public_id public_id [] row h = cc
lookup-public_id public_id (x ∷ rows) row h =
    ground (arith, eq_iff x.public_id public_id, lookup-public_id public_id rows row)

-- An element behind the others is found when none of those fits.
pub find-append_last {ℓ} :
    {A : Type ℓ} (p : A → Bool) (xs : List A) (x : A)
    → find p xs ≡ none
    → p x ≡ true
    → find p (xs ++ x ∷ []) ≡ some x
find-append_last p [] x h k = ground arith
find-append_last p (y ∷ xs) x h k = ground (arith, find-append_last p xs x)

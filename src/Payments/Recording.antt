-- ===== src/Payments/Recording.antt =====
-- services/payment_service.py: the end of the `try` block of `complete_payment`.
use mikrotik.Prelude.{
  [], ◌∷◌, ◌++◌, refl, eq_iff, Bool-cases, Option-cases, inl, inr, none, ℕ, String, ◌≡◌, ◌∙◌,
  Option, some, List, str_eq, find,
}
use mikrotik.Models.{constraints_hold, Db, PaymentSession, Payment, Status}
use mikrotik.World.{App, flush, World, ◌>>◌, Result, ok, err, ◌>>=◌, write, commit}
use mikrotik.Crud.{next_id, new_uid, save_session, create_log}
use mikrotik.Crud.Puts.{Has, put-Has, find-append_last}
use mikrotik.Access.{Provisioned}
use mikrotik.Access.Frames.{IsFrame}
use mikrotik.Payments.{record_paid}

-- A payment with this invoice.
abbrev pub paid_for : String → List Payment → Option Payment
paid_for invoice = find (λ row. str_eq row.invoice invoice)

-- The session is provisioned and its payment is on record.
pub record IsPaid (public_id : String) (id : ℕ) (d : Db) : Type 0 where
  pub session : Has public_id id Status.provisioned d.payment_sessions
  pub payment : Payment
  pub recorded : paid_for public_id d.payments ≡ some payment

module _ (public_id : String) (id : ℕ) (d : Db) where
  -- What provisioning leaves alone, and the session that it works on.
  pub record IsUnderway (s : World) : Type 0 where
    pub committed : s.db ≡ d
    pub payments : s.session.payments ≡ d.payments
    pub session : Has public_id id Status.provisioning s.session.payment_sessions

  pub IsUnderway-frame :
      (row : PaymentSession)
      → row.public_id ≡ public_id
      → row.id ≡ id
      → row.status ≡ Status.provisioning
      → IsFrame row IsUnderway
  IsUnderway-frame row same key status = record {
    quiet = record {
      drawn =
          λ s n h. record { committed = h.committed; payments = h.payments; session = h.session };
      called =
          λ s cs h. record { committed = h.committed; payments = h.payments; session = h.session };
    };
    hotspot =
        λ s l h. record { committed = h.committed; payments = h.payments; session = h.session };
    ppp = λ s l h. record { committed = h.committed; payments = h.payments; session = h.session };
    access = λ s r e h. record {
      committed = h.committed;
      payments = h.payments;
      session = rw (← (e.status ∙ status)) (
          put-Has s.now r s.session.payment_sessions public_id id Status.provisioning h.session
            (e.public_id ∙ same) (e.id ∙ key));
    };
  }

-- The rest of the `try` block publishes a paid session, or raises and publishes nothing.
abbrev pub Records : String → ℕ → Db → Result (Unit {0}) × World → Type 0
Records public_id id d (ok u, s) = IsPaid public_id id s.db
Records public_id id d (err e, s) = s.db ≡ d

commit-Records :
    (public_id : String) (id : ℕ) (d : Db) (s : World)
    → s.db ≡ d
    → IsPaid public_id id s.session
    → Records public_id id d (commit s)
unfolding commit
commit-Records public_id id d s same paid = elim (Bool-cases (constraints_hold s.session)) [
  | inl fits ↦ rw fits paid
  | inr clashes ↦ rw clashes same
]

flush-Records :
    (public_id : String) (id : ℕ) (d : Db) (s : World)
    → s.db ≡ d
    → IsPaid public_id id s.session
    → Records public_id id d ((flush >> commit) s)
unfolding flush ◌>>=◌
flush-Records public_id id d s same paid = elim (Bool-cases (constraints_hold s.session)) [
  | inl fits ↦ rw fits (commit-Records public_id id d s same paid)
  | inr clashes ↦ rw clashes same
]

closing : Option ℕ → App (Unit {0})
closing router_id = do
  create_log "Payment provisioned" none router_id "info" (some "payment.provisioned")
  commit

closing-Records :
    (public_id : String) (id : ℕ) (d : Db) (router_id : Option ℕ) (s : World)
    → s.db ≡ d
    → IsPaid public_id id s.session
    → Records public_id id d (closing router_id s)
unfolding closing create_log ◌>>=◌ write flush next_id
closing-Records public_id id d router_id s same paid =
    flush-Records public_id id d _ same
      (record { session = paid.session; payment = paid.payment; recorded = paid.recorded })

with_payment :
    (public_id : String) (id : ℕ) (d : Db) (before : List Payment) (x : Payment)
    → d.payments ≡ before ++ x ∷ []
    → Has public_id id Status.provisioned d.payment_sessions
    → paid_for x.invoice before ≡ none
    → x.invoice ≡ public_id
    → IsPaid public_id id d
with_payment public_id id d before x added has absent same = record {
  session = has;
  payment = x;
  recorded = rw (added, ← same) (find-append_last _ before x absent ((eq_iff _ _).1 refl));
}

pub record_paid-Records :
    (public_id : String) (id : ℕ) (d : Db) (receipt : Option String) (p : Provisioned) (s : World)
    → IsUnderway public_id id d s
    → p.2.public_id ≡ public_id
    → p.2.id ≡ id
    → Records public_id id d (record_paid receipt p s)
unfolding record_paid ◌>>=◌ save_session write next_id new_uid closing
record_paid-Records public_id id d receipt p s u same key =
    elim (Option-cases (paid_for p.2.public_id s.session.payments)) [
      | inr (payment, e) ↦ rw e (
          closing-Records public_id id d (some p.2.router_id) _ u.committed (record {
            session =
                put-Has s.now _ s.session.payment_sessions public_id id Status.provisioning
                  u.session same key;
            payment = payment;
            recorded = rw (← same) e;
          }))
      | inl e ↦ rw e (
          closing-Records public_id id d (some p.2.router_id) _ u.committed (
            with_payment public_id id _ s.session.payments _ refl
              (put-Has s.now _ s.session.payment_sessions public_id id Status.provisioning u.session
                same key)
              e same))
    ]

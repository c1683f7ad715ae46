-- ===== src/Routers/Retired.antt =====
-- services/router_service.py: what a deletion leaves of a router's packages and payment sessions.
use mikrotik.Prelude.{ℕ, ◌≡◌, refl, arith, Option}
use mikrotik.Models.{Status}
use mikrotik.World.{World, Exn, Result, recover, http, integrity, fault, ok, err, ◌>>=◌, rollback}
use mikrotik.Routers.Deletion.{not_safe}

-- The status that a deletion of its router leaves a session with.
abbrev pub after_deletion : Status → Status
after_deletion Status.created = Status.failed
after_deletion Status.pending = Status.failed
after_deletion Status.provisioning = Status.manual_review
after_deletion Status.provisioning_failed = Status.manual_review
after_deletion Status.paid = Status.paid
after_deletion Status.provisioned = Status.provisioned
after_deletion Status.manual_review = Status.manual_review
after_deletion Status.failed = Status.failed

raised : {A : Type 0} (e : Exn) (a : A) → err e ≡ ok a → ⊥
raised e a h = absurd (ground arith)

-- The handler never returns, so that the `try` block did.
closing :
    (r : Result (Option ℕ) × World) (peer : Option ℕ)
    → (recover r not_safe).0 ≡ ok peer
    → (r.0 ≡ ok peer) × ((recover r not_safe).1.db ≡ r.1.db)
unfolding not_safe rollback ◌>>=◌
closing (ok a, t) peer h = (h, refl)
closing (err integrity, t) peer h = absurd (raised _ _ h)
closing (err (http code detail), t) peer h = absurd (raised _ _ h)
closing (err (fault message), t) peer h = absurd (raised _ _ h)

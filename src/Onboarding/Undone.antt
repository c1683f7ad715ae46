-- ===== src/Onboarding/Undone.antt =====
-- services/onboarding_service.py: an onboarding that cannot be finished is undone.
use mikrotik.Prelude.{ℕ, String, ◌≡◌, ◌⊎◌}
use mikrotik.Models.{Db}
use mikrotik.World.{World, Exn, http, integrity}
use mikrotik.World.Keeps.{Keeps}

module _ (d : Db) where
  -- What is committed is `d`.
  abbrev Has : World → Type 0
  Has w = w.db ≡ d

  -- What a caller sees of a failed onboarding: an answer of the service.
  abbrev IsUndone : Exn → World → Type 0
  IsUndone e w = (w.db ≡ d) × (code : ℕ) × (detail : String) × (e ≡ http code detail)

  -- What the steps of the `try` block may end with.
  abbrev IsRaised : Exn → World → Type 0
  IsRaised e w =
      (w.db ≡ d) × ((e ≡ integrity) ⊎ ((code : ℕ) × (detail : String) × (e ≡ http code detail)))

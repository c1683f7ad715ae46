-- ===== src/World/Errors.antt =====
-- Exceptions, as the services raise and catch them.
use mikrotik.Prelude.{ℕ, String}

pub data Exn : Type 0 where
  -- `HTTPException(status_code, detail)`
  http : ℕ → String → Exn
  -- SQLAlchemy's `IntegrityError`
  integrity : Exn
  -- `RuntimeError`, `ValueError`, and what a RouterOS or provider client raises
  fault : String → Exn

pub data Result {ℓ} (A : Type ℓ) : Type ℓ where
  ok : A → Result A
  err : Exn → Result A

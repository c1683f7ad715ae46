-- ===== src/Packages/Days.antt =====
-- services/package_service.py: the validity in days that goes with a validity in minutes.
use mikrotik.Prelude.{ℕ, ◌*◌, ◌≤◌, arith}
use mikrotik.Packages.{days_of}

-- The days of a package are the least positive number of days that cover its minutes.
pub days_of-covers :
    (minutes : ℕ)
    → (minutes ≤ days_of minutes * 1440)
      × (1 ≤ days_of minutes)
      × ((days : ℕ) → 1 ≤ days → minutes ≤ days * 1440 → days_of minutes ≤ days)
unfolding days_of
days_of-covers minutes = (ground arith, ground arith, λ days h k. ground arith)

-- ===== src/Access/Renewals.antt =====
-- services/access_service.py: how long a paid renewal of an account lasts.
use mikrotik.Prelude.{ℕ, ◌+◌, ◌*◌, ◌≤◌, ◌<◌, ◌≡◌, arith, some}
use mikrotik.Access.{renewed}

-- A renewal never shortens the access that an account has: the paid time counts from the end of that
-- access if it still runs, and from now if it has run out.
pub renewed-extends :
    (t now minutes : ℕ)
    → (t ≤ renewed (some t) now minutes)
      × (now < t → renewed (some t) now minutes ≡ t + minutes * 60)
      × (t ≤ now → renewed (some t) now minutes ≡ now + minutes * 60)
unfolding renewed
renewed-extends t now minutes = (ground arith, λ h. ground arith, λ h. ground arith)

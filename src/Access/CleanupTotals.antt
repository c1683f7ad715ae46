-- ===== src/Access/CleanupTotals.antt =====
-- services/access_service.py: what the counts of the clean-up add up to.
use mikrotik.Prelude.{ℕ, ◌+◌, ◌≤◌, ◌≡◌, String, Bool, true, false, arith, List, [], ◌∷◌, length}
use mikrotik.World.{World, Result, ok, err}
use mikrotik.World.Keeps.{Yields, Yields-then, Yields-pure}
use mikrotik.Access.{
  CleanupCounts, count_round, cleanup_all, cleanup_failed_prepared_hotspot_sessions,
}

-- `n` sessions are left to count.
abbrev pub Fits : ℕ → CleanupCounts → Type 0
Fits n c = c.cleaned + c.failed + n ≤ c.checked

count_round-Fits :
    (n : ℕ) (r : Result Bool) (c : CleanupCounts) → Fits (1 + n) c → Fits n (count_round r c)
unfolding count_round
count_round-Fits n (ok true) c h = omega arith
count_round-Fits n (ok false) c h = omega arith
count_round-Fits n (err e) c h = omega arith

cleanup_all-Yields :
    (ids : List String) (c : CleanupCounts)
    → Fits (length ids) c
    → Yields (λ c'. c'.cleaned + c'.failed ≤ c'.checked) (cleanup_all ids c)
unfolding cleanup_all
cleanup_all-Yields [] c h = Yields-pure _ (omega arith)
cleanup_all-Yields (x ∷ ids) c h =
    Yields-then _ _ λ r.
      cleanup_all-Yields ids (count_round r c) (count_round-Fits (length ids) r c (omega arith))

cleanup-Yields :
    (limit : ℕ)
    → Yields
        (λ c. c.cleaned + c.failed ≤ c.checked)
        (cleanup_failed_prepared_hotspot_sessions limit)
unfolding cleanup_failed_prepared_hotspot_sessions
cleanup-Yields limit = Yields-then _ _ λ ids. cleanup_all-Yields ids _ (omega arith)

-- When the job returns, the sessions that it counts as cleaned and as failed are together at most those
-- that it checked.
pub cleanup-counts :
    (limit : ℕ) (s : World) (c : CleanupCounts)
    → (cleanup_failed_prepared_hotspot_sessions limit s).0 ≡ ok c
    → c.cleaned + c.failed ≤ c.checked
cleanup-counts limit s c h = (cleanup-Yields limit).at s c h

-- ===== src/Maintenance/Counts.antt =====
-- services/maintenance_service.py: what the counts of the job add up to.
use mikrotik.Prelude.{ℕ, ◌+◌, ◌≡◌, arith, List, [], ◌∷◌, length}
use mikrotik.Models.{HotspotUser, PppUser}
use mikrotik.World.{Result, ok, err, World}
use mikrotik.World.Keeps.{Yields, Yields-with_session, Yields-then, Yields-pure, Yields-bind}
use mikrotik.Maintenance.{
  ExpiryCounts, disable_hotspot, disable_ppp, mark_hotspot, mark_ppp, expire_access,
}

-- `n` accounts are left to count.
abbrev pub Adds : ℕ → ExpiryCounts → Type 0
Adds n c = c.checked ≡ c.disabled + c.failed + n

mark_hotspot-Yields :
    (n : ℕ) (row : HotspotUser) (r : Result (Unit {0})) (c : ExpiryCounts)
    → Adds (1 + n) c
    → Yields (Adds n) (mark_hotspot row r c)
unfolding mark_hotspot
mark_hotspot-Yields n row (ok u) c h = Yields-then _ _ λ _. Yields-pure _ (omega arith)
mark_hotspot-Yields n row (err e) c h = Yields-pure _ (omega arith)

disable_hotspot-Yields :
    (n : ℕ) (rows : List HotspotUser) (c : ExpiryCounts)
    → Adds (length rows + n) c
    → Yields (Adds n) (disable_hotspot rows c)
unfolding disable_hotspot
disable_hotspot-Yields n [] c h = Yields-pure _ (omega arith)
disable_hotspot-Yields n (row ∷ rows) c h = Yields-then _ _ λ r.
    Yields-bind _ _ (mark_hotspot-Yields (length rows + n) row r c (omega arith))
      λ c' h'. disable_hotspot-Yields n rows c' h'

mark_ppp-Yields :
    (n : ℕ) (row : PppUser) (r : Result (Unit {0})) (c : ExpiryCounts)
    → Adds (1 + n) c
    → Yields (Adds n) (mark_ppp row r c)
unfolding mark_ppp
mark_ppp-Yields n row (ok u) c h = Yields-then _ _ λ _. Yields-pure _ (omega arith)
mark_ppp-Yields n row (err e) c h = Yields-pure _ (omega arith)

disable_ppp-Yields :
    (n : ℕ) (rows : List PppUser) (c : ExpiryCounts)
    → Adds (length rows + n) c
    → Yields (Adds n) (disable_ppp rows c)
unfolding disable_ppp
disable_ppp-Yields n [] c h = Yields-pure _ (omega arith)
disable_ppp-Yields n (row ∷ rows) c h = Yields-then _ _ λ r.
    Yields-bind _ _ (mark_ppp-Yields (length rows + n) row r c (omega arith))
      λ c' h'. disable_ppp-Yields n rows c' h'

expire_access-Yields : Yields (Adds 0) expire_access
unfolding expire_access
expire_access-Yields = Yields-with_session _ (
    Yields-then _ _ λ now. Yields-then _ _ λ hs. Yields-then _ _ λ ps.
      Yields-bind _ _ (disable_hotspot-Yields (length ps) hs _ (omega arith)) λ c h.
        Yields-bind _ _ (disable_ppp-Yields 0 ps c (omega (arith, h)))
          λ c' h'. Yields-then _ _ λ _. Yields-pure _ h')

-- When the job returns, the accounts that it checked are those that it counts as disabled and those
-- that it counts as failed.
pub expire_access-counts :
    (s : World) (c : ExpiryCounts) → (expire_access s).0 ≡ ok c → c.checked ≡ c.disabled + c.failed
expire_access-counts s c h = omega (arith, expire_access-Yields.at s c h)

-- ===== src/Agent/Pool.antt =====
-- vpn_agent/agent.py: `_allocate` gives the first address of the range that no line uses.
use mikrotik.Prelude.{
  ℕ, zero, suc, ◌+◌, ◌-◌, ◌≤◌, ◌<◌, String, ◌≡◌, Bool, true, false, Option, none, some, List, arith,
  any, ◌==◌, Bool-cases, inl, inr,
}
use mikrotik.Agent.Store.{PeerStore, first_free, allocate, used_addresses}

-- `ip in used`
abbrev pub is_used : ℕ → List ℕ → Bool
is_used ip used = any (λ x. x == ip) used

-- What the loop gives: the first address that is not used, or that all are used.
abbrev pub IsFirstFree : ℕ → ℕ → List ℕ → Option ℕ → Type 0
IsFirstFree first count used none =
    (ip : ℕ) → first ≤ ip → ip < first + count → is_used ip used ≡ true
IsFirstFree first count used (some free) =
    (first ≤ free)
    × (free < first + count)
    × (is_used free used ≡ false)
    × ((ip : ℕ) → first ≤ ip → ip < free → is_used ip used ≡ true)

first_free-IsFirstFree :
    (count first : ℕ) (used : List ℕ) → IsFirstFree first count used (first_free count first used)
unfolding first_free
first_free-IsFirstFree zero first used = λ ip lo hi. absurd (omega arith)
first_free-IsFirstFree (suc count) first used = elim (Bool-cases (is_used first used)) [
  | inl taken ↦ rw taken (
      after_used count first used taken (first_free count (first + 1) used)
        (first_free-IsFirstFree count (first + 1) used))
  | inr free ↦ rw free (omega arith, omega arith, free, λ ip lo hi. absurd (omega arith))
]
  where
    after_used :
        (count first : ℕ) (used : List ℕ)
        → is_used first used ≡ true
        → (found : Option ℕ) → IsFirstFree (first + 1) count used found
        → IsFirstFree first (suc count) used found
    after_used count first used taken none h = λ ip lo hi. elim (Bool-cases (ip == first)) [
      | inl same ↦ let e : ip ≡ first = ground arith in rw e taken
      | inr other ↦ h ip (ground arith) (omega arith)
    ]
    after_used count first used taken (some free) h = (
      omega (arith, h.0),
      omega (arith, h.1),
      h.2,
      λ ip lo hi. elim (Bool-cases (ip == first)) [
        | inl same ↦ let e : ip ≡ first = ground arith in rw e taken
        | inr other ↦ h.3 ip (ground arith) hi
      ],
    )

-- The agent allocates the least address of its range that no line of the file uses; it gives none
-- exactly when every address of the range is used.
pub allocate-IsFirstFree :
    (store : PeerStore) (lines : List String)
    → IsFirstFree store.first_ip
        (store.last_ip + 1 - store.first_ip)
        (used_addresses store lines)
        (allocate store lines)
unfolding allocate
allocate-IsFirstFree store lines =
    first_free-IsFirstFree _ store.first_ip (used_addresses store lines)

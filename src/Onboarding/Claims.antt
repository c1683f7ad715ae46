-- ===== src/Onboarding/Claims.antt =====
-- services/onboarding_service.py: who gets an onboarding script, who may claim, and what is left of it.
use mikrotik.World.Returns.{commit-returned}
use mikrotik.Prelude.{
  refl, ℕ, String, ◌≡◌, false, Option, some, arith, Option-cases, inl, inr, opt_eq, find, List, [],
  ◌∷◌, ap, ◌∙◌, map, filter, length, leb, if◌then◌else◌, Bool-cases, none,
}
use mikrotik.Models.{Router}
use mikrotik.World.{World, ok, ◌>>=◌, with_session, write, refresh}
use mikrotik.World.Keeps.{Yields, Yields-then, Yields-pure}
use mikrotik.Onboarding.{
  expire_downloads, download_expired, claim_onboarding, claim_row, has_expired,
  expire_onboarding_downloads,
}

-- What the expiry leaves of a script or of the hash for its download: nothing, once the deadline has
-- come.
abbrev pub kept_until : Option ℕ → ℕ → Option String → Option String
kept_until none now kept = kept
kept_until (some t) now kept = if leb t now then none else kept

script-kept :
    (now : ℕ) (row : Router) (rows : List Router) (deadline : Option ℕ) (script : Option String)
    → row.onboarding_token_expires_at ≡ deadline
    → row.onboarding_script_encrypted ≡ script
    → map (λ r. r.onboarding_script_encrypted) (expire_downloads now (row ∷ rows))
      ≡ kept_until deadline now script
        ∷ map (λ r. r.onboarding_script_encrypted) (expire_downloads now rows)
unfolding expire_downloads download_expired
script-kept now row rows none script t k = rw (t, k) refl
script-kept now row rows (some at) none t k = elim (Bool-cases (leb at now)) [
  | inl due ↦ rw (t, k, due) refl
  | inr early ↦ rw (t, k, early) refl
]
script-kept now row rows (some at) (some script) t k = elim (Bool-cases (leb at now)) [
  | inl due ↦ rw (t, k, due) refl
  | inr early ↦ rw (t, k, early) refl
]

scripts-kept :
    (now : ℕ) (rows : List Router)
    → map (λ r. r.onboarding_script_encrypted) (expire_downloads now rows)
      ≡ map (λ r. kept_until r.onboarding_token_expires_at now r.onboarding_script_encrypted) rows
unfolding expire_downloads
scripts-kept now [] = refl
scripts-kept now (row ∷ rows) =
    script-kept now row rows row.onboarding_token_expires_at row.onboarding_script_encrypted refl
      refl
    ∙ ap (λ xs. kept_until row.onboarding_token_expires_at now row.onboarding_script_encrypted ∷ xs)
        (scripts-kept now rows)

-- The expiry of downloads, when it returns, has removed the script of exactly the routers whose
-- deadline has come.
pub expire_onboarding_downloads-scripts :
    (s : World) (count : ℕ)
    → (expire_onboarding_downloads s).0 ≡ ok count
    → map (λ r. r.onboarding_script_encrypted) (expire_onboarding_downloads s).1.db.routers
      ≡ map
          (λ r. kept_until r.onboarding_token_expires_at s.now r.onboarding_script_encrypted)
          s.db.routers
unfolding expire_onboarding_downloads ◌>>=◌ with_session write
expire_onboarding_downloads-scripts s count h =
    let expired : World =
      (write (λ d. record d { routers = expire_downloads s.now d.routers }) (refresh s)).1 in
    let published =
      commit-returned (length (filter (download_expired s.now) s.db.routers)) expired count h in
    ap (λ d. map (λ r. r.onboarding_script_encrypted) d.routers) published
    ∙ scripts-kept s.now s.db.routers

claim_row-Yields :
    (tunnel_ip : String) (version : Option String) (row : Router)
    → Yields (λ uid. row.uid ≡ uid) (claim_row tunnel_ip version row)
unfolding claim_row
claim_row-Yields tunnel_ip version row = Yields-then _ _ λ ip. Yields-then _ _ λ _.
    Yields-then _ _
      λ now. Yields-then _ _ λ _. Yields-then _ _ λ _. Yields-then _ _ λ _. Yields-pure _ refl

-- A claim succeeds only with a token whose hash a router has and which has not expired, and it names
-- that router.
pub claim_onboarding_sound :
    (token tunnel_ip : String) (version : Option String) (s : World) (uid : String)
    → (claim_onboarding token tunnel_ip version s).0 ≡ ok uid
    → (row : Router) × (find (λ r. opt_eq r.onboarding_token_hash (s.env.sha256 token)) s.db.routers
        ≡ some row)
      × (row.uid ≡ uid)
      × (has_expired row.onboarding_token_expires_at s.now ≡ false)
unfolding claim_onboarding ◌>>=◌ with_session
claim_onboarding_sound token tunnel_ip version s uid h =
    elim (Option-cases
      (find (λ r. opt_eq r.onboarding_token_hash (s.env.sha256 token)) s.db.routers)) [
        | inl unknown ↦ absurd (ground arith)
        | inr (row, found) ↦
            (row, found, ground (arith, (claim_row-Yields tunnel_ip version row).at), ground arith)
      ]

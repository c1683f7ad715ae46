-- ===== src/Onboarding.antt =====
-- services/onboarding_service.py: the download, the expiry and the claim of an onboarding.
-- The script's text stands in Onboarding/Script, its creation in Onboarding/Creation.
pub mod Claims
pub mod Texts
pub mod Page
pub mod Script
pub mod Views
pub mod Creation
pub mod Undone
pub mod Peers
use Prim.Native.Char.{code}
use mikrotik.Prelude.{
  ℕ, String, Bool, true, false, not, ◌&&◌, ◌||◌, Option, none, some, List, [], ◌∷◌, str_eq, opt_eq,
  truthy, or_text, codes, is_digit, is_some, length, filter, find, any, all, update_where,
  take_text, ◌==◌, ltb, leb, if◌then◌else◌,
}
use mikrotik.Models.{AdminUser, Router, OnboardingStatus}
use mikrotik.World.{
  App, Env, http, pure, gets, or_raise, raise_if, write, commit, with_session, ◌>>=◌, ◌>>◌,
}
use mikrotik.Crud.{create_log}
use mikrotik.Mikrotik.{decrypt_secret, inside_networks}
use mikrotik.Routers.{save_router}

-- `value.split("/")[0]`
unfoldable pub before_slash : String → String
before_slash String.[] = ""
before_slash (String.◌∷◌ c s) =
    let rest = before_slash s in if code c == b'/' then "" else String.◌∷◌ c rest

unfoldable pub valid_claim_ip : String → App String
unfolding before_slash
valid_claim_ip value = do
  read ← gets (λ s. s.env.read_ip (before_slash value))
  address ← or_raise read (http 422 "Invalid router tunnel address")
  allowed ← gets (λ s. s.env.allowed_networks)
  networks ← or_raise allowed (http 422 "Invalid router tunnel address")
  raise_if (not (inside_networks networks (address ∷ [])))
      (http 422 "Router address is outside the configured control network")
  gets (λ s. s.env.show_ip address)

unfoldable pub is_token_code : ℕ → Bool
is_token_code c =
    is_digit c || (leb b'a' c && leb c b'z') || (leb b'A' c && leb c b'Z') || c == b'_' || c == b'-'

-- `re.fullmatch(r"[A-Za-z0-9_-]{43}", token)`
unfoldable pub is_download_token : String → Bool
unfolding is_token_code
is_download_token token = let cs = codes token in length cs == 43 && all is_token_code cs

abbrev pub is_pending : OnboardingStatus → Bool
is_pending OnboardingStatus.pending = true
is_pending _ = false

-- `expires > now`, which no NULL meets
abbrev pub is_after : Option ℕ → ℕ → Bool
is_after none now = false
is_after (some t) now = ltb now t

-- whether the owner's account is active
unfoldable pub owner_active : Option ℕ → List AdminUser → Bool
owner_active none users = false
owner_active (some id) users = any (λ u. u.id == id && u.is_active) users

-- the query of `consume_onboarding_script`
unfoldable pub is_downloadable : Env → ℕ → List AdminUser → String → String → Router → Bool
unfolding owner_active
is_downloadable env now users router_uid token row =
    str_eq row.uid router_uid
    && opt_eq row.onboarding_download_hash (env.sha256 token)
    && is_after row.onboarding_token_expires_at now
    && is_pending row.onboarding_status
    && is_some row.onboarding_script_encrypted
    && owner_active row.owner_id users

unfoldable pub consume_onboarding_script : String → String → App String
unfolding is_download_token is_downloadable
consume_onboarding_script router_uid token = do
  raise_if (not (is_download_token token)) (http 404 "Onboarding download is unavailable")
  with_session do
    found ← gets λ s.
        find (is_downloadable s.env s.now s.session.admin_users router_uid token) s.session.routers
    router ← or_raise found (http 404 "Onboarding download is unavailable")
    decrypt_secret (or_text router.onboarding_script_encrypted "")

-- `expires <= now`
abbrev pub is_past : Option ℕ → ℕ → Bool
is_past none now = false
is_past (some t) now = leb t now

unfoldable pub download_expired : ℕ → Router → Bool
download_expired now row =
    is_past row.onboarding_token_expires_at now && is_some row.onboarding_script_encrypted

unfoldable pub expire_downloads : ℕ → List Router → List Router
unfolding download_expired
expire_downloads now = update_where (download_expired now) λ row. record row {
  onboarding_download_hash = none;
  onboarding_script_encrypted = none;
  updated_at = now;
}

unfoldable pub expire_onboarding_downloads : App ℕ
unfolding expire_downloads
expire_onboarding_downloads = with_session do
  now ← gets (λ s. s.now)
  count ← gets (λ s. length (filter (download_expired now) s.session.routers))
  write (λ d. record d { routers = expire_downloads now d.routers })
  commit
  pure count

-- `[^A-Za-z0-9 ._()-]` is taken out
unfoldable pub is_version_code : ℕ → Bool
is_version_code c =
    is_digit c
    || (leb b'a' c && leb c b'z')
    || (leb b'A' c && leb c b'Z')
    || c == b' '
    || c == b'.'
    || c == b'_'
    || c == b'('
    || c == b')'
    || c == b'-'

unfoldable pub keep_version : String → String
unfolding is_version_code
keep_version String.[] = ""
keep_version (String.◌∷◌ c s) =
    let rest = keep_version s in if is_version_code (code c) then String.◌∷◌ c rest else rest

-- `re.sub(…)[:64] or None`
unfoldable pub clean_version : Option String → Option String
unfolding keep_version
clean_version version =
    let text = take_text 64 (keep_version (or_text version "")) in
    if truthy text then some text else none

-- `expires is None or expires < now`
abbrev pub has_expired : Option ℕ → ℕ → Bool
has_expired none now = true
has_expired (some t) now = ltb t now

unfoldable pub is_claimed : OnboardingStatus → Bool
is_claimed OnboardingStatus.claimed = true
is_claimed _ = false

unfoldable pub claimed_router : String → Option String → ℕ → Router → Router
claimed_router ip version now row = record row {
  ip_address = ip;
  routeros_version = version;
  onboarding_download_hash = none;
  onboarding_script_encrypted = none;
  onboarding_status = OnboardingStatus.claimed;
  last_seen_at = some now;
  last_error = none;
  updated_at = now;
}

unfoldable pub claim_row : String → Option String → Router → App String
unfolding claimed_router clean_version
claim_row tunnel_ip routeros_version row = do
  ip ← valid_claim_ip tunnel_ip
  raise_if (not (str_eq row.ip_address "0.0.0.0" || str_eq row.ip_address ip))
      (http 409 "Router tunnel address does not match its provisioned peer")
  now ← gets (λ s. s.now)
  save_router (claimed_router ip (clean_version routeros_version) now row)
  create_log "Router onboarding claimed" none (some row.id) "info"
      (some "router.onboarding.claimed")
  commit
  pure row.uid

-- The reply is the identifier of the claimed router.
unfoldable pub claim_onboarding : String → String → Option String → App String
unfolding claim_row is_claimed
claim_onboarding token tunnel_ip routeros_version = with_session do
  now ← gets (λ s. s.now)
  found ←
      gets
        λ s. find (λ row. opt_eq row.onboarding_token_hash (s.env.sha256 token)) s.session.routers
  row ← or_raise found (http 404 "Onboarding token is invalid")
  raise_if (has_expired row.onboarding_token_expires_at now)
      (http 410 "Onboarding token has expired")
  if is_claimed row.onboarding_status
      then pure row.uid
      else claim_row tunnel_ip routeros_version row

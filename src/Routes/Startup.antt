-- ===== src/Routes/Startup.antt =====
-- mono.py: what the start of the service does, and the headers of every response.
use Prim.Native.Char.{code}
use mikrotik.Prelude.{
  ℕ, ◌+◌, String, Bool, false, not, ◌&&◌, ◌||◌, Option, none, some, List, [], ◌∷◌, ◌++◌, truthy,
  truthy?, or_text, text_length, remove_dashes, codes, all, is_digit, is_some, leb, ltb, contains,
  if◌then◌else◌,
}
use mikrotik.Models.{AdminUser, Role}
use mikrotik.World.{
  App, Attributes, Exn, http, integrity, fault, pure, raise, gets, raise_if, catch, commit,
  rollback, with_session, ◌>>=◌, ◌>>◌,
}
use mikrotik.Crud.{get_admin_user_by_username, create_admin_user}
use mikrotik.Auth.{save_admin}
use mikrotik.Settings.{Os, validate}
use mikrotik.Routers.{encrypt_legacy_credentials}

-- an account from before that still has its known password is switched off
unfoldable pub retire_default : String → Option AdminUser → App (Unit {0})
retire_default password none = pure tt
retire_default password (some row) = do
  uses_default ← gets (λ s. s.env.verify_password password row.hashed_password)
  if uses_default
      then save_admin (record row { is_active = false; token_version = row.token_version + 1 })
      else pure tt

unfoldable pub retire_defaults : List (String × String) → App (Unit {0})
unfolding retire_default
retire_defaults [] = pure tt
retire_defaults ((username, password) ∷ rest) = do
  found ← get_admin_user_by_username username
  retire_default password found
  retire_defaults rest

-- `except IntegrityError`: another worker may have made the account
unfoldable pub seeded_elsewhere : String → Exn → App (Unit {0})
seeded_elsewhere username integrity = do
  rollback
  found ← get_admin_user_by_username username
  raise_if (not (is_some found)) integrity
seeded_elsewhere username (http code detail) = raise (http code detail)
seeded_elsewhere username (fault message) = raise (fault message)

unfoldable pub create_superadmin : String → String → App (Unit {0})
unfolding seeded_elsewhere
create_superadmin username password = do
  raise_if (ltb (text_length password) 12)
      (fault "SUPERADMIN_PASSWORD must contain at least 12 characters")
  catch
      (do
        hashed ← gets (λ s. s.env.hash_password password)
        create_admin_user username hashed Role.superadmin none
        pure tt)
      (seeded_elsewhere username)

-- The arguments are `SUPERADMIN_USERNAME` and `SUPERADMIN_PASSWORD`.
unfoldable pub seed_superadmin : Option String → Option String → App (Unit {0})
unfolding retire_defaults create_superadmin
seed_superadmin username password = with_session do
  retire_defaults (("admin", "secret") ∷ ("superadmin", "admin123") ∷ [])
  commit
  if truthy? username && truthy? password
      then (do
        found ← get_admin_user_by_username (or_text username "")
        if is_some found
            then pure tt
            else create_superadmin (or_text username "") (or_text password ""))
      else pure tt

-- `settings.validate()`
unfoldable pub check_settings : Os → App (Unit {0})
check_settings os = do
  unsafe ← gets (λ s. validate os s.env.settings)
  raise_if (is_some unsafe) (fault (or_text unsafe ""))

-- What comes before the first request: the number of credentials that were encrypted.
unfoldable pub lifespan : Os → Option String → Option String → App ℕ
unfolding check_settings
lifespan os username password = do
  check_settings os
  seed_superadmin username password
  encrypt_legacy_credentials

-- `c.isalnum()`, in ASCII
abbrev pub is_alnum : ℕ → Bool
is_alnum c = is_digit c || leb b'a' c && leb c b'z' || leb b'A' c && leb c b'Z'

-- the request's own identifier, if it is one
unfoldable pub is_request_id : String → Bool
is_request_id text =
    leb (text_length text) 64
    && truthy (remove_dashes text)
    && all is_alnum (codes (remove_dashes text))

unfoldable pub request_id_for : String → String → String
unfolding is_request_id
request_id_for supplied fresh = if is_request_id supplied then supplied else fresh

-- the headers that `request_context` adds to the response for a path
unfoldable pub response_headers : Bool → String → Bool → String → Attributes
response_headers production path https request_id =
    (if contains "/onboarding" path || contains "/router-onboarding/" path
      then ("Cache-Control", "no-store, private") ∷ []
      else [])
    ++ ("X-Request-ID", request_id)
      ∷ ("X-Content-Type-Options", "nosniff")
      ∷ ("Referrer-Policy", "no-referrer")
      ∷ ("Permissions-Policy", "geolocation=(), microphone=(), camera=()")
      ∷ (if https || production
          then ("Strict-Transport-Security", "max-age=31536000; includeSubDomains") ∷ []
          else [])

-- ===== src/Auth.antt =====
-- mono.py: operators, their sign-in and their tokens.
pub mod Lockout
pub mod Revocation
use mikrotik.Prelude.{
  ℕ, ◌+◌, ◌*◌, String, Bool, true, false, not, ◌||◌, Option, none, some, List, [], ◌∷◌, is_some,
  ltb, leb, ◌==◌, if◌then◌else◌,
}
use mikrotik.Models.{AdminUser, Role}
use mikrotik.World.{
  App, Exn, http, integrity, fault, pure, raise, gets, or_raise, raise_if, write, catch, commit,
  rollback, with_session, ◌>>=◌, ◌>>◌,
}
use mikrotik.Crud.{
  get_admin_user_by_username, get_admin_user_by_email, get_admin_user_by_id, create_admin_user,
}

unfoldable pub put_admin : AdminUser → List AdminUser → List AdminUser
put_admin row [] = []
put_admin row (old ∷ rest) = (if old.id == row.id then row else old) ∷ put_admin row rest

-- the attributes of a loaded row are assigned
unfoldable pub save_admin : AdminUser → App (Unit {0})
unfolding put_admin
save_admin row = write (λ d. record d { admin_users = put_admin row d.admin_users })

-- the claims of a token that matter to the service, and how long it is good for
pub record AccessToken : Type 0 where
  pub sub : ℕ
  pub role : Role
  pub ver : ℕ
  pub iat : ℕ
  pub exp : ℕ
  pub expires_in : ℕ

unfoldable pub issue_access_token : AdminUser → App AccessToken
issue_access_token user = do
  now ← gets (λ s. s.now)
  minutes ← gets (λ s. s.env.settings.access_token_expire_minutes)
  pure (record {
    sub = user.id;
    role = user.role;
    ver = user.token_version;
    iat = now;
    exp = now + minutes * 60;
    expires_in = minutes * 60;
  })

-- `jwt.decode` gives the subject and the version of a token, or raises
unfoldable pub get_current_user : Option (ℕ × ℕ) → App AdminUser
get_current_user payload = do
  (user_id, token_version) ← or_raise payload (http 401 "Invalid or expired token")
  with_session do
    found ← get_admin_user_by_id user_id
    user ← or_raise found (http 401 "Invalid or expired token")
    raise_if (not user.is_active || not (user.token_version == token_version))
        (http 401 "Invalid or expired token")
    pure user

unfoldable pub is_superadmin : Role → Bool
is_superadmin Role.superadmin = true
is_superadmin Role.isp = false

unfoldable pub require_superadmin : AdminUser → App AdminUser
unfolding is_superadmin
require_superadmin user = do
  raise_if (not (is_superadmin user.role)) (http 403 "Superadmin access required")
  pure user

-- the hash that an unknown name is checked against
abbrev pub dummy_hash : String
dummy_hash = "$2b$12$2b2xVQyQmD/3C7Y62A/BKuF7VL2NfFv.i3I9qLfVFe1qgD0uYPZZK"

-- `locked_until and locked_until > now`
abbrev pub is_locked : Option ℕ → ℕ → Bool
is_locked none now = false
is_locked (some t) now = ltb now t

-- the row after a wrong password
unfoldable pub count_failure : AdminUser → ℕ → AdminUser
count_failure user now =
    if leb 5 (user.failed_login_count + 1)
    then record user { locked_until = some (now + 15 * 60); failed_login_count = 0 }
    else record user { failed_login_count = user.failed_login_count + 1 }

unfoldable pub unknown_user : String → App AccessToken
unknown_user password = raise (http 401 "Incorrect username or password")

unfoldable pub wrong_password : AdminUser → ℕ → App AccessToken
unfolding count_failure
wrong_password user now = do
  raise_if (is_locked user.locked_until now)
      (http 429 "Account temporarily locked. Try again later")
  save_admin (count_failure user now)
  commit
  raise (http 401 "Incorrect username or password")

unfoldable pub right_password : AdminUser → ℕ → App AccessToken
right_password user now = do
  raise_if (not user.is_active) (http 403 "Account is disabled")
  let user' : AdminUser = record user {
    failed_login_count = 0;
    locked_until = none;
    last_login_at = some now;
  }
  save_admin user'
  commit
  issue_access_token user'

unfoldable pub authenticate_found : String → Option AdminUser → App AccessToken
unfolding unknown_user wrong_password right_password
authenticate_found password none = unknown_user password
authenticate_found password (some user) = do
  now ← gets (λ s. s.now)
  valid ← gets (λ s. s.env.verify_password password user.hashed_password)
  if valid then right_password user now else wrong_password user now

unfoldable pub authenticate : String → String → App AccessToken
unfolding authenticate_found
authenticate username password =
    with_session do user ← get_admin_user_by_username username; authenticate_found password user

unfoldable pub taken : Exn → App AdminUser
taken integrity = do
  rollback
  raise (http 409 "An account with that ISP identifier or email already exists")
taken (http code detail) = raise (http code detail)
taken (fault message) = raise (fault message)

unfoldable pub register_isp : String → String → String → App AccessToken
unfolding taken
register_isp username email password = with_session do
  by_name ← get_admin_user_by_username username
  by_email ← get_admin_user_by_email email
  raise_if (is_some by_name || is_some by_email)
      (http 409 "An account with that ISP identifier or email already exists")
  hashed ← gets (λ s. s.env.hash_password password)
  user ← catch (create_admin_user username hashed Role.isp (some email)) taken
  issue_access_token user

unfoldable pub logout : ℕ → App (Unit {0})
logout user_id = with_session do
  found ← get_admin_user_by_id user_id
  user ← or_raise found (fault "AttributeError")
  save_admin (record user { token_version = user.token_version + 1 })
  commit

unfoldable pub add_admin_user : String → String → Role → Option String → App AdminUser
add_admin_user username password role email = with_session do
  found ← get_admin_user_by_username username
  raise_if (is_some found) (http 409 "Username already exists")
  hashed ← gets (λ s. s.env.hash_password password)
  create_admin_user username hashed role email

unfoldable pub change_password : ℕ → String → String → App (Unit {0})
change_password user_id current_password new_password = with_session do
  found ← get_admin_user_by_id user_id
  user ← or_raise found (fault "AttributeError")
  valid ← gets (λ s. s.env.verify_password current_password user.hashed_password)
  raise_if (not valid) (http 400 "Current password is incorrect")
  hashed ← gets (λ s. s.env.hash_password new_password)
  save_admin (record user { hashed_password = hashed; token_version = user.token_version + 1 })
  commit

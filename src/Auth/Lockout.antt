-- ===== src/Auth/Lockout.antt =====
-- mono.py: the throttle on wrong passwords.
use mikrotik.Crud.{get_admin_user_by_username}
use mikrotik.Prelude.{String, ◌≡◌, true, some, arith, inl, inr, find, str_eq, Option-cases}
use mikrotik.Models.{AdminUser}
use mikrotik.World.{World, ok, ◌>>=◌, with_session, commit}
use mikrotik.Auth.{AccessToken, authenticate, save_admin, issue_access_token}

-- A sign-in succeeds only with the password of an active account of that name, and its token names
-- that account and its present token version.
pub authenticate_sound :
    (username password : String) (s : World) (token : AccessToken)
    → (authenticate username password s).0 ≡ ok token
    → (user : AdminUser) × (find (λ row. str_eq row.username username) s.db.admin_users ≡ some user)
      × (s.env.verify_password password user.hashed_password ≡ true)
      × (user.is_active ≡ true)
      × (token.sub ≡ user.id)
      × (token.ver ≡ user.token_version)
unfolding authenticate get_admin_user_by_username issue_access_token save_admin ◌>>=◌ with_session
    commit
authenticate_sound username password s token h =
    elim (Option-cases (find (λ row. str_eq row.username username) s.db.admin_users)) [
      | inl unknown ↦ absurd (ground arith)
      | inr (user, found) ↦ (user, found, ground arith, ground arith, ground arith, ground arith)
    ]

-- ===== src/Auth/Revocation.antt =====
-- mono.py: tokens and the version that revokes them.
use mikrotik.Prelude.{
  ℕ, ◌+◌, ◌≡◌, Bool-cases, inl, inr, Option, some, List, [], ◌∷◌, arith, find, ◌==◌,
}
use mikrotik.Models.{Db, constraints_hold, AdminUser}
use mikrotik.World.{World, http, ok, err, ◌>>=◌, with_session, commit, flush, write}
use mikrotik.Crud.{get_admin_user_by_id}
use mikrotik.Auth.{put_admin, save_admin, logout, get_current_user}

abbrev pub admin_with : ℕ → List AdminUser → Option AdminUser
admin_with id = find (λ row. row.id == id)

admin_with-put :
    (row old : AdminUser) (rows : List AdminUser)
    → admin_with row.id rows ≡ some old
    → admin_with row.id (put_admin row rows) ≡ some row
unfolding put_admin
admin_with-put row old [] h = cc
admin_with-put row old (x ∷ rows) h = elim (Bool-cases (x.id == row.id)) [
  | inl here ↦ ground arith
  | inr away ↦ ground (arith, admin_with-put row old rows (ground arith))
]

-- After an operator has logged out, every token that was good before is refused.
pub logout-revokes :
    (user : AdminUser) (s : World)
    → admin_with user.id s.db.admin_users ≡ some user
    → (logout user.id s).0 ≡ ok tt
    → (get_current_user (some (user.id, user.token_version)) (logout user.id s).1).0
      ≡ err (http 401 "Invalid or expired token")
unfolding logout get_current_user get_admin_user_by_id save_admin write commit flush ◌>>=◌
    with_session
logout-revokes user s known out = elim (Bool-cases (constraints_hold after)) [
  | inl fits ↦ rw (known, fits, admin_with-put next user s.db.admin_users known) (ground arith)
  | inr clashes ↦ absurd (ground arith)
]
  where
    next : AdminUser
    next = record user { token_version = user.token_version + 1 }

    after : Db
    after = record s.db { admin_users = put_admin next s.db.admin_users }

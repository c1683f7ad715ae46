-- ===== src/Routers/Tenancy.antt =====
-- services/router_service.py: which operator reaches which router.
use mikrotik.Prelude.{
  refl, String, ◌≡◌, ◌⊎◌, inl, inr, true, false, some, arith, Option-cases, find, str_eq,
}
use mikrotik.Models.{AdminUser, Router, Role}
use mikrotik.World.{World, ok, ◌>>=◌, with_session}
use mikrotik.Crud.{get_router_by_uid, is_deleted}
use mikrotik.Routers.Access.{get_router_for_user, may_manage}

superadmin-cases : (r : Role) → (r ≡ Role.superadmin) ⊎ (r ≡ Role.isp)
superadmin-cases Role.superadmin = inl refl
superadmin-cases Role.isp = inr refl

pub may_manage_sound :
    (user : AdminUser) (router : Router)
    → may_manage user router ≡ true
    → (user.role ≡ Role.superadmin) ⊎ (router.owner_id ≡ some user.id)
unfolding may_manage
may_manage_sound user router h = elim (superadmin-cases user.role) [
  | inl above ↦ inl above
  | inr isp ↦ inr (elim (Option-cases router.owner_id) [
    | inl unowned ↦ absurd (ground arith)
    | inr (id, owned) ↦ ground arith
  ])
]

may_manage_complete :
    (user : AdminUser) (router : Router)
    → (user.role ≡ Role.superadmin) ⊎ (router.owner_id ≡ some user.id)
    → may_manage user router ≡ true
unfolding may_manage
may_manage_complete user router (inl above) = rw above refl
may_manage_complete user router (inr owned) = elim (superadmin-cases user.role) [
  | inl above ↦ rw above refl
  | inr isp ↦ rw (isp, owned) (ground arith)
]

-- A router is handed out under its identifier exactly when it is not deleted and the operator is a
-- superadmin or owns it.
pub get_router_for_user-exactly :
    (router_uid : String) (user : AdminUser) (s : World) (router : Router)
    → ((get_router_for_user router_uid user s).0 ≡ ok router
        → (find (λ row. str_eq row.uid router_uid) s.db.routers ≡ some router)
          × (is_deleted router.onboarding_status ≡ false)
          × ((user.role ≡ Role.superadmin) ⊎ (router.owner_id ≡ some user.id)))
      × ((find (λ row. str_eq row.uid router_uid) s.db.routers ≡ some router)
            × (is_deleted router.onboarding_status ≡ false)
            × ((user.role ≡ Role.superadmin) ⊎ (router.owner_id ≡ some user.id))
          → (get_router_for_user router_uid user s).0 ≡ ok router)
unfolding get_router_for_user get_router_by_uid ◌>>=◌ with_session
get_router_for_user-exactly router_uid user s router = (
  λ h. elim (Option-cases (find (λ row. str_eq row.uid router_uid) s.db.routers)) [
    | inl unknown ↦ absurd (ground arith)
    | inr (row, found) ↦ (ground arith, ground arith, may_manage_sound user router (ground arith))
  ],
  λ (found, kept, managed). rw (found, kept, may_manage_complete user router managed) refl,
)

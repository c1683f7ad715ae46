-- ===== src/Crud/Routers.antt =====
-- database/crud.py: routers and packages.
use mikrotik.Prelude.{
  ℕ, String, Bool, true, false, not, ◌&&◌, Option, none, some, List, [], ◌∷◌, ◌++◌, str_eq, ◌==◌,
  filter, find, order_by, order_by_desc, if◌then◌else◌,
}
use mikrotik.Models.{Router, Package, OnboardingStatus}
use mikrotik.World.{App, pure, gets, write, flush, ◌>>◌}
use mikrotik.Crud.Users.{in_router}

-- `row.onboarding_status == "deleted"`
abbrev pub is_deleted : OnboardingStatus → Bool
is_deleted OnboardingStatus.deleted = true
is_deleted _ = false

-- The caller gives the row, its key drawn.
unfoldable pub create_router : Router → App Router
create_router row = do write (λ d. record d { routers = d.routers ++ row ∷ [] }); flush; pure row

-- `row.owner_id == owner_id`, when there is an owner to filter by
abbrev pub owned_by : Option ℕ → Option ℕ → Bool
owned_by none owner = true
owned_by (some u) none = false
owned_by (some u) (some o) = o == u

unfoldable pub get_routers : Option ℕ → Bool → App (List Router)
get_routers owner_id include_deleted = gets λ s.
    order_by_desc (λ row. row.created_at)
      (filter
        (λ row.
          (if include_deleted then true else not (is_deleted row.onboarding_status))
          && owned_by owner_id row.owner_id)
        s.session.routers)

unfoldable pub get_router_by_id : ℕ → App (Option Router)
get_router_by_id router_id = gets (λ s. find (λ row. row.id == router_id) s.session.routers)

unfoldable pub get_router_by_uid : String → App (Option Router)
get_router_by_uid router_uid = gets (λ s. find (λ row. str_eq row.uid router_uid) s.session.routers)

unfoldable pub get_router_by_portal_slug : String → App (Option Router)
get_router_by_portal_slug portal_slug =
    gets (λ s. find (λ row. str_eq row.portal_slug portal_slug) s.session.routers)

-- The caller gives the row, its key drawn.
unfoldable pub create_package : Package → App Package
create_package row = do write (λ d. record d { packages = d.packages ++ row ∷ [] }); flush; pure row

unfoldable pub get_packages : Option ℕ → Bool → App (List Package)
get_packages router_id active_only = gets λ s.
    order_by (λ row. row.price)
      (filter
        (λ row. in_router router_id row.router_id && (if active_only then row.is_active else true))
        s.session.packages)

unfoldable pub get_package_by_uid : String → App (Option Package)
get_package_by_uid package_uid =
    gets (λ s. find (λ row. str_eq row.uid package_uid) s.session.packages)

unfoldable pub get_package_by_id : ℕ → App (Option Package)
get_package_by_id id = gets (λ s. find (λ row. row.id == id) s.session.packages)

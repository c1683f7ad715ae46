-- ===== src/Packages/Ownership.antt =====
-- services/package_service.py: a package is changed only through its own router.
use mikrotik.Prelude.{String, ◌≡◌, ◌∙◌, find, str_eq, some, arith}
use mikrotik.Models.{Package, Router}
use mikrotik.World.{World, Exn, http, integrity, fault, ok, ◌>>=◌, with_session, refresh, rollback}
use mikrotik.World.Returns.{
  bind-returned, catch-returned, raise_if-returned, or_raise-returned, gets-returned,
}
use mikrotik.Crud.{get_package_by_uid}
use mikrotik.Packages.{PackageUpdateRequest, update_package, name_taken}

taken-raises : (e : Exn) (t : World) (pkg : Package) → (name_taken e t).0 ≡ ok pkg → ⊥
unfolding name_taken rollback ◌>>=◌
taken-raises integrity t pkg h = absurd (ground arith)
taken-raises (http code detail) t pkg h = absurd (ground arith)
taken-raises (fault message) t pkg h = absurd (ground arith)

-- A change of a package returns only if the tables have a package under this identifier, and it is
-- the router's.
pub update_package_sound :
    (router : Router) (package_uid : String) (body : PackageUpdateRequest) (s : World)
    (changed : Package)
    → (update_package router package_uid body s).0 ≡ ok changed
    → (row : Package) × (find (λ p. str_eq p.uid package_uid) s.db.packages ≡ some row)
      × (row.router_id ≡ router.id)
unfolding update_package with_session get_package_by_uid
update_package_sound router package_uid body s changed h =
    let (found, looked_up, h1) = bind-returned _ _ (refresh s) changed (
      catch-returned _ name_taken (refresh s) changed
        (λ e t raised. taken-raises e t changed raised) h) in
    let (row, present, h2) = bind-returned _ _ _ changed h1 in
    let (u, own, h3) = bind-returned _ _ _ changed h2 in
    let own_row = raise_if-returned _ _ _ u own in
    (
      row,
      gets-returned _ _ found looked_up ∙ (or_raise-returned found _ _ row present).0,
      ground (arith, own_row),
    )

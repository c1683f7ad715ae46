-- ===== src/Packages.antt =====
-- services/package_service.py: the packages of a router.
pub mod Days
pub mod Ownership
use mikrotik.Prelude.{
  ℕ, ◌+◌, ◌/◌, String, Bool, false, not, Option, none, some, List, [], ◌∷◌, or_default, ◌==◌, leb,
  if◌then◌else◌,
}
use mikrotik.Models.{Package, Router, ServiceType}
use mikrotik.World.{
  App, Exn, http, integrity, fault, pure, raise, gets, or_raise, raise_if, modify, catch, commit,
  rollback, with_session, ◌>>=◌, ◌>>◌,
}
use mikrotik.Crud.{next_id, new_uid, create_log, create_package, get_packages, get_package_by_uid}

-- `PackageCreateRequest` of schemas.py; the price is in cents
pub record PackageCreateRequest : Type 0 where
  pub name : String
  pub description : Option String
  pub price : ℕ
  pub service_type : ServiceType
  pub validity_minutes : ℕ
  pub router_profile : String
  pub rate_limit : Option String
  pub is_active : Bool

-- `PackageUpdateRequest`: `none` is a member that was not set.
pub record PackageUpdateRequest : Type 0 where
  pub name : Option String
  pub description : Option (Option String)
  pub price : Option ℕ
  pub validity_minutes : Option ℕ
  pub router_profile : Option String
  pub rate_limit : Option (Option String)
  pub is_active : Option Bool

-- `max(1, (minutes + 1439) // 1440)`
unfoldable pub days_of : ℕ → ℕ
days_of minutes = let days = (minutes + 1439) / 1440 in if leb 1 days then days else 1

unfoldable pub name_taken : {A : Type 0} → Exn → App A
name_taken integrity = do rollback; raise (http 409 "A package with this name already exists")
name_taken (http code detail) = raise (http code detail)
name_taken (fault message) = raise (fault message)

unfoldable pub add_package : Router → PackageCreateRequest → App Package
unfolding days_of name_taken
add_package router body = with_session (
    catch
      (do
        id ← next_id
        uid ← new_uid
        now ← gets (λ s. s.now)
        row ← create_package (record {
          id = id;
          uid = uid;
          name = body.name;
          description = body.description;
          price = body.price;
          service_type = body.service_type;
          validity_days = days_of body.validity_minutes;
          validity_minutes = body.validity_minutes;
          router_profile = body.router_profile;
          rate_limit = body.rate_limit;
          is_active = body.is_active;
          router_id = router.id;
          created_at = now;
          updated_at = now;
        })
        create_log "Package created" none (some router.id) "info" (some "package.created")
        commit
        pure row)
      name_taken)

-- the loop of `setattr`, and the days that follow from the minutes
unfoldable pub updated : PackageUpdateRequest → Package → ℕ → Package
unfolding days_of
updated body row now = record row {
  name = or_default body.name row.name;
  description = or_default body.description row.description;
  price = or_default body.price row.price;
  validity_minutes = or_default body.validity_minutes row.validity_minutes;
  validity_days = elim body.validity_minutes [
    | none ↦ row.validity_days
    | some minutes ↦ days_of minutes
  ];
  router_profile = or_default body.router_profile row.router_profile;
  rate_limit = or_default body.rate_limit row.rate_limit;
  is_active = or_default body.is_active row.is_active;
  updated_at = now;
}

unfoldable pub put_package : Package → List Package → List Package
put_package row [] = []
put_package row (old ∷ rest) = (if old.id == row.id then row else old) ∷ put_package row rest

unfoldable pub update_package : Router → String → PackageUpdateRequest → App Package
unfolding updated put_package name_taken
update_package router package_uid body = with_session (
    catch
      (do
        found ← get_package_by_uid package_uid
        row ← or_raise found (http 404 "Package not found")
        raise_if (not (row.router_id == router.id)) (http 404 "Package not found")
        now ← gets (λ s. s.now)
        let row' : Package = updated body row now
        modify (λ s. record s {
          session = record s.session { packages = put_package row' s.session.packages };
        })
        create_log "Package updated" none (some router.id) "info" (some "package.updated")
        commit
        pure row')
      name_taken)

abbrev pub retirement : PackageUpdateRequest
retirement = record {
  name = none;
  description = none;
  price = none;
  validity_minutes = none;
  router_profile = none;
  rate_limit = none;
  is_active = some false;
}

unfoldable pub retire_package : Router → String → App Package
unfolding update_package
retire_package router package_uid = update_package router package_uid retirement

unfoldable pub list_packages : Router → Bool → App (List Package)
list_packages router active_only = with_session (get_packages (some router.id) active_only)

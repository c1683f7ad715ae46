-- ===== src/Routers/Access.antt =====
-- services/router_service.py: who sees a router, and changes of its record.
use mikrotik.Prelude.{
  ℕ, String, Bool, true, false, not, Option, none, some, List, [], ◌∷◌, or_default, mem_text, ◌==◌,
  if◌then◌else◌,
}
use mikrotik.Models.{AdminUser, Role, Router, ConnectionMode, OnboardingStatus}
use mikrotik.World.{
  App, Exn, http, integrity, fault, pure, raise, gets, or_raise, raise_if, write, catch, commit,
  rollback, with_session, ◌>>=◌, ◌>>◌,
}
use mikrotik.Crud.{
  next_id, new_uid, create_log, is_deleted, create_router, get_router_by_uid, get_routers,
}
use mikrotik.Mikrotik.{encrypt_secret, validate_router_destination}

-- `row.owner_id == user.id`
abbrev pub owns : AdminUser → Router → Bool
owns user router = elim router.owner_id [ none ↦ false | some id ↦ id == user.id ]

-- `user.role == "superadmin"` or the owner
unfoldable pub may_manage : AdminUser → Router → Bool
may_manage user router = elim user.role [ Role.superadmin ↦ true | Role.isp ↦ owns user router ]

-- inside the session of the caller
unfoldable pub find_router_for_user : String → AdminUser → App Router
unfolding may_manage
find_router_for_user router_uid current_user = do
  found ← get_router_by_uid router_uid
  router ← or_raise found (http 404 "Router not found")
  raise_if (is_deleted router.onboarding_status) (http 404 "Router not found")
  raise_if (not (may_manage current_user router)) (http 404 "Router not found")
  pure router

unfoldable pub get_router_for_user : String → AdminUser → App Router
unfolding find_router_for_user
get_router_for_user router_uid current_user =
    with_session (find_router_for_user router_uid current_user)

-- `None` for a superadmin, else the user's id
unfoldable pub owner_filter : AdminUser → Option ℕ
owner_filter user = elim user.role [ Role.superadmin ↦ none | Role.isp ↦ some user.id ]

unfoldable pub list_routers : AdminUser → App (List Router)
unfolding owner_filter
list_routers current_user = with_session (get_routers (owner_filter current_user) false)

-- `RouterCreateRequest` of schemas.py
pub record RouterCreateRequest : Type 0 where
  pub name : String
  pub ip_address : String
  pub port : ℕ
  pub username : String
  pub password : String
  pub portal_slug : String
  pub portal_enabled : Bool
  pub payment_provider : String

unfoldable pub slug_taken : String → Exn → App Router
slug_taken detail integrity = do rollback; raise (http 409 detail)
slug_taken detail (http code d) = raise (http code d)
slug_taken detail (fault message) = raise (fault message)

unfoldable pub add_router : RouterCreateRequest → AdminUser → App Router
unfolding slug_taken
add_router body current_user = do
  providers ← gets (λ s. s.env.settings.payment_providers)
  raise_if (not (mem_text body.payment_provider providers))
      (http 422 "Payment provider is not enabled")
  validate_router_destination body.ip_address
  with_session (
      catch
        (do
          id ← next_id
          uid ← new_uid
          now ← gets (λ s. s.now)
          encrypted ← encrypt_secret body.password
          row ← create_router (record {
            id = id;
            uid = uid;
            name = body.name;
            ip_address = body.ip_address;
            port = body.port;
            username = body.username;
            password = encrypted;
            owner_id = some current_user.id;
            portal_slug = body.portal_slug;
            portal_enabled = body.portal_enabled;
            payment_provider = body.payment_provider;
            connection_mode = ConnectionMode.direct;
            onboarding_status = OnboardingStatus.configured;
            onboarding_download_hash = none;
            onboarding_script_encrypted = none;
            onboarding_token_hash = none;
            onboarding_token_expires_at = none;
            last_seen_at = none;
            last_error = none;
            routeros_version = none;
            created_at = now;
            updated_at = now;
          })
          create_log "Router created" none (some row.id) "info" (some "router.created")
          commit
          pure row)
        (slug_taken "Portal slug is already in use"))

-- `RouterUpdateRequest`: `none` is a member that was not set.
pub record RouterUpdateRequest : Type 0 where
  pub name : Option String
  pub ip_address : Option String
  pub port : Option ℕ
  pub username : Option String
  pub password : Option String
  pub portal_slug : Option String
  pub portal_enabled : Option Bool
  pub payment_provider : Option String

unfoldable pub put_router : Router → List Router → List Router
put_router row [] = []
put_router row (old ∷ rest) = (if old.id == row.id then row else old) ∷ put_router row rest

-- the attributes of a loaded row are assigned
unfoldable pub save_router : Router → App (Unit {0})
unfolding put_router
save_router row = write (λ d. record d { routers = put_router row d.routers })

-- "configured" for a direct router, else as it is
abbrev configured : Router → OnboardingStatus
configured row = elim row.connection_mode [
  | ConnectionMode.direct ↦ OnboardingStatus.configured
  | ConnectionMode.l2tp ↦ row.onboarding_status
]

unfoldable pub check_provider : Option String → App (Unit {0})
check_provider none = pure tt
check_provider (some provider) = do
  providers ← gets (λ s. s.env.settings.payment_providers)
  raise_if (not (mem_text provider providers)) (http 422 "Payment provider is not enabled")

unfoldable pub check_destination : Option String → App (Unit {0})
check_destination none = pure tt
check_destination (some host) = validate_router_destination host

unfoldable pub new_secret : Option String → String → App String
new_secret none old = pure old
new_secret (some password) old = encrypt_secret password

-- the loop of `setattr`, and the status that follows
unfoldable pub updated_router : RouterUpdateRequest → String → ℕ → Router → Router
updated_router body password now row = record row {
  name = or_default body.name row.name;
  ip_address = or_default body.ip_address row.ip_address;
  port = or_default body.port row.port;
  username = or_default body.username row.username;
  password = password;
  portal_slug = or_default body.portal_slug row.portal_slug;
  portal_enabled = or_default body.portal_enabled row.portal_enabled;
  payment_provider = or_default body.payment_provider row.payment_provider;
  onboarding_status = configured row;
  updated_at = now;
}

unfoldable pub update_router : String → RouterUpdateRequest → AdminUser → App Router
unfolding check_provider check_destination new_secret updated_router slug_taken
update_router router_uid body current_user = with_session (
    catch
      (do
        row ← find_router_for_user router_uid current_user
        check_provider body.payment_provider
        check_destination body.ip_address
        password ← new_secret body.password row.password
        now ← gets (λ s. s.now)
        let row' : Router = updated_router body password now row
        save_router row'
        create_log "Router updated" none (some row'.id) "info" (some "router.updated")
        commit
        pure row')
      (slug_taken "Portal slug is already in use"))

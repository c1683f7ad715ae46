-- ===== src/Mikrotik/Users.antt =====
-- services/mikrotik_service.py: users of a router, for HotSpot and for PPPoE.
use mikrotik.Prelude.{
  ℕ, String, Bool, true, false, Option, none, some, List, [], ◌∷◌, ◌++◌, truthy?, filter,
  if◌then◌else◌,
}
use mikrotik.World.{App, Endpoint, Command, Attributes, http, pure, raise, ◌>>=◌, ◌>>◌}
use mikrotik.Mikrotik.Api.{router_api_by_id, run_command, get_item, named, remove_rows}
use mikrotik.Mikrotik.Duration.{routeros_duration}

abbrev pub hotspot_user : List String
hotspot_user = "ip" ∷ "hotspot" ∷ "user" ∷ []

abbrev pub hotspot_active : List String
hotspot_active = "ip" ∷ "hotspot" ∷ "active" ∷ []

abbrev pub ppp_secret : List String
ppp_secret = "ppp" ∷ "secret" ∷ []

abbrev pub ppp_active : List String
ppp_active = "ppp" ∷ "active" ∷ []

-- "no" if enabled, else "yes"
abbrev pub disabled_flag : Bool → String
disabled_flag true = "no"
disabled_flag false = "yes"

-- `values["limit-uptime"] = duration`, if there is one
unfoldable pub uptime_limit : Option String → Attributes
uptime_limit none = []
uptime_limit (some d) = if truthy? (some d) then ("limit-uptime", d) ∷ [] else []

-- `{**values, ".id": id}` where `existing[0]` has that id
unfoldable pub replace_user :
    Endpoint → List String → Bool → List Attributes → Attributes → App (Unit {0})
replace_user endpoint path replace_existing [] values = do
  run_command endpoint (Command.add path values)
  pure tt
replace_user endpoint path false (row ∷ rows) values =
    raise (http 409 "Username already exists on router")
replace_user endpoint path true (row ∷ rows) values = do
  id ← get_item ".id" row
  run_command endpoint (Command.update path (values ++ (".id", id) ∷ []))
  pure tt

unfoldable pub upsert_router_user :
    Endpoint → List String → String → String → String → Option String → Bool → Bool → App (Unit {0})
unfolding uptime_limit replace_user
upsert_router_user endpoint path username password profile duration replace_existing enabled = do
  users ← run_command endpoint (Command.print path)
  let existing = filter (named "name" username) users
  let values : Attributes =
      ("name", username)
      ∷ ("password", password)
      ∷ ("profile", profile)
      ∷ ("disabled", disabled_flag enabled)
      ∷ uptime_limit duration
  replace_user endpoint path replace_existing existing values

unfoldable pub provision_hotspot_access :
    ℕ → String → String → String → ℕ → Bool → Bool → App (Unit {0})
unfolding upsert_router_user
provision_hotspot_access router_id username password profile minutes replace_existing enabled =
    router_api_by_id router_id λ endpoint.
      upsert_router_user endpoint hotspot_user username password profile
        (some (routeros_duration minutes)) replace_existing enabled

-- what `set_hotspot_enabled` and `set_pppoe_enabled` do with the rows that they find
unfoldable pub set_disabled :
    Endpoint → List String → String → List Attributes → Bool → App (Unit {0})
set_disabled endpoint path missing [] enabled = raise (http 404 missing)
set_disabled endpoint path missing (row ∷ rows) enabled = do
  id ← get_item ".id" row
  run_command endpoint
      (Command.update path ((".id", id) ∷ ("disabled", disabled_flag enabled) ∷ []))
  pure tt

unfoldable pub set_hotspot_enabled : ℕ → String → Bool → App (Unit {0})
unfolding set_disabled
set_hotspot_enabled router_id username enabled = router_api_by_id router_id λ endpoint. do
  users ← run_command endpoint (Command.print hotspot_user)
  set_disabled endpoint hotspot_user "Hotspot user not found on router"
      (filter (named "name" username) users) enabled

unfoldable pub delete_hotspot_access : ℕ → String → App (Unit {0})
delete_hotspot_access router_id username = router_api_by_id router_id λ endpoint. do
  users ← run_command endpoint (Command.print hotspot_user)
  remove_rows endpoint hotspot_user (filter (named "name" username) users)
  active ← run_command endpoint (Command.print hotspot_active)
  remove_rows endpoint hotspot_active (filter (named "user" username) active)

unfoldable pub provision_pppoe_access : ℕ → String → String → String → Bool → Bool → App (Unit {0})
unfolding replace_user
provision_pppoe_access router_id username password profile replace_existing enabled =
    router_api_by_id router_id λ endpoint. do
      secrets ← run_command endpoint (Command.print ppp_secret)
      let values : Attributes =
          ("name", username)
          ∷ ("password", password)
          ∷ ("profile", profile)
          ∷ ("service", "pppoe")
          ∷ ("disabled", disabled_flag enabled)
          ∷ []
      replace_user endpoint ppp_secret replace_existing (filter (named "name" username) secrets)
          values

-- `if not enabled:` the user's sessions are cut
unfoldable pub cut_sessions : Endpoint → String → Bool → App (Unit {0})
cut_sessions endpoint username true = pure tt
cut_sessions endpoint username false = do
  active ← run_command endpoint (Command.print ppp_active)
  remove_rows endpoint ppp_active (filter (named "name" username) active)

unfoldable pub set_pppoe_enabled : ℕ → String → Bool → App (Unit {0})
unfolding set_disabled cut_sessions
set_pppoe_enabled router_id username enabled = router_api_by_id router_id λ endpoint. do
  secrets ← run_command endpoint (Command.print ppp_secret)
  set_disabled endpoint ppp_secret "PPPoE user not found on router"
      (filter (named "name" username) secrets) enabled
  cut_sessions endpoint username enabled

unfoldable pub delete_pppoe_access : ℕ → String → App (Unit {0})
delete_pppoe_access router_id username = router_api_by_id router_id λ endpoint. do
  secrets ← run_command endpoint (Command.print ppp_secret)
  remove_rows endpoint ppp_secret (filter (named "name" username) secrets)

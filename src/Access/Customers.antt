-- ===== src/Access/Customers.antt =====
-- services/access_service.py: what an operator does with customers.
use mikrotik.Prelude.{◌+◌, ◌*◌, String, Bool, true, false, not, Option, none, some, List, map, ◌==◌}
use mikrotik.Models.{HotspotUser, PppUser, Router, ServiceType}
use mikrotik.World.{
  App, Exn, http, integrity, fault, pure, raise, gets, or_raise, raise_if, catch, flush, commit,
  rollback, with_session, ◌>>=◌, ◌>>◌,
}
use mikrotik.Crud.{
  next_id, new_uid, create_log, get_hotspot_users, get_ppp_users, get_hotspot_user_by_uid,
  get_ppp_user_by_uid,
}
use mikrotik.Mikrotik.{
  encrypt_secret, provision_hotspot_access, provision_pppoe_access, set_hotspot_enabled,
  set_pppoe_enabled, delete_hotspot_access, delete_pppoe_access,
}
use mikrotik.Access.Rows.{
  package_for_router, new_username, new_password, given_or, HotspotView, serialize_hotspot_user,
  PppView, serialize_pppoe_user, add_hotspot_user, save_hotspot_user, delete_hotspot_user,
  add_ppp_user, save_ppp_user, delete_ppp_user,
}

unfoldable pub list_hotspot_users : Router → App (List HotspotView)
list_hotspot_users router =
    with_session
      do rows ← get_hotspot_users (some router.id); pure (map serialize_hotspot_user rows)

unfoldable pub list_pppoe_users : Router → App (List PppView)
list_pppoe_users router =
    with_session do rows ← get_ppp_users (some router.id); pure (map serialize_pppoe_user rows)

-- `HotspotUserCreateRequest` of schemas.py
pub record HotspotUserRequest : Type 0 where
  pub phone_number : String
  pub username : Option String
  pub password : Option String
  pub package_uid : String

-- `PPPUserCreateRequest` of schemas.py
pub record PppUserRequest : Type 0 where
  pub name : String
  pub email : Option String
  pub pppoe_username : String
  pub pppoe_password : String
  pub mobile_number : String
  pub location : Option String
  pub apartment : Option String
  pub package_uid : String

-- `except IntegrityError` and `except Exception`
unfoldable pub undo : {A : Type 0} → String → Exn → App A
undo taken integrity = do rollback; raise (http 409 taken)
undo taken (http code detail) = do rollback; raise (http code detail)
undo taken (fault message) = do rollback; raise (fault message)

-- The reply is the customer and the credentials.
unfoldable pub create_hotspot_customer :
    Router → HotspotUserRequest → App (HotspotView × String × String)
unfolding undo
create_hotspot_customer router body = do
  username ← given_or body.username (new_username "hs-")
  password ← given_or body.password new_password
  with_session (
      catch
        (do
          pkg ← package_for_router body.package_uid router.id ServiceType.hotspot
          now ← gets (λ s. s.now)
          id ← next_id
          uid ← new_uid
          encrypted ← encrypt_secret password
          let row : HotspotUser = record {
            id = id;
            uid = uid;
            phone_number = body.phone_number;
            amount = pkg.price;
            otp = username;
            password_encrypted = some encrypted;
            is_active = true;
            expires_at = some (now + pkg.validity_minutes * 60);
            package_id = some pkg.id;
            router_id = router.id;
            created_at = now;
          }
          add_hotspot_user row
          flush
          provision_hotspot_access router.id username password pkg.router_profile
              pkg.validity_minutes false true
          create_log "Hotspot customer created" none (some router.id) "info"
              (some "hotspot.created")
          commit
          pure (serialize_hotspot_user row, username, password))
        (undo "Hotspot username already exists"))

unfoldable pub create_pppoe_customer : Router → PppUserRequest → App PppView
unfolding undo
create_pppoe_customer router body = with_session (
    catch
      (do
        pkg ← package_for_router body.package_uid router.id ServiceType.pppoe
        now ← gets (λ s. s.now)
        id ← next_id
        uid ← new_uid
        encrypted ← encrypt_secret body.pppoe_password
        let row : PppUser = record {
          id = id;
          uid = uid;
          name = body.name;
          email = body.email;
          pppoe_username = body.pppoe_username;
          pppoe_password = encrypted;
          mobile_number = body.mobile_number;
          profile = some pkg.router_profile;
          expires_on = some (now + pkg.validity_minutes * 60);
          location = body.location;
          apartment = body.apartment;
          package_id = some pkg.id;
          router_id = router.id;
          is_active = true;
          created_at = now;
          updated_at = now;
        }
        add_ppp_user row
        flush
        provision_pppoe_access router.id body.pppoe_username body.pppoe_password pkg.router_profile
            false true
        create_log "PPPoE customer created" none (some router.id) "info" (some "pppoe.created")
        commit
        pure (serialize_pppoe_user row))
      (undo "PPPoE username already exists on this router"))

-- the texts that depend on the service and on the flag
unfoldable pub switched : ServiceType → Bool → String
switched ServiceType.hotspot true = "hotspot customer enabled"
switched ServiceType.hotspot false = "hotspot customer disabled"
switched ServiceType.pppoe true = "pppoe customer enabled"
switched ServiceType.pppoe false = "pppoe customer disabled"

unfoldable pub switch_event : ServiceType → Bool → String
switch_event ServiceType.hotspot true = "hotspot.enabled"
switch_event ServiceType.hotspot false = "hotspot.disabled"
switch_event ServiceType.pppoe true = "pppoe.enabled"
switch_event ServiceType.pppoe false = "pppoe.disabled"

pub data CustomerView : Type 0 where
  hotspot_view : HotspotView → CustomerView
  pppoe_view : PppView → CustomerView

unfoldable pub find_hotspot_customer : Router → String → App HotspotUser
find_hotspot_customer router user_uid = do
  found ← get_hotspot_user_by_uid user_uid
  row ← or_raise found (http 404 "Hotspot customer not found")
  raise_if (not (row.router_id == router.id)) (http 404 "Hotspot customer not found")
  pure row

unfoldable pub find_pppoe_customer : Router → String → App PppUser
find_pppoe_customer router user_uid = do
  found ← get_ppp_user_by_uid user_uid
  row ← or_raise found (http 404 "PPPoE customer not found")
  raise_if (not (row.router_id == router.id)) (http 404 "PPPoE customer not found")
  pure row

-- the two branches of `set_customer_enabled` before the log entry
unfoldable pub switch_customer : Router → ServiceType → String → Bool → App CustomerView
unfolding find_hotspot_customer find_pppoe_customer
switch_customer router ServiceType.hotspot user_uid enabled = do
  row ← find_hotspot_customer router user_uid
  set_hotspot_enabled router.id row.otp enabled
  save_hotspot_user (record row { is_active = enabled })
  pure (hotspot_view (serialize_hotspot_user (record row { is_active = enabled })))
switch_customer router ServiceType.pppoe user_uid enabled = do
  row ← find_pppoe_customer router user_uid
  set_pppoe_enabled router.id row.pppoe_username enabled
  save_ppp_user (record row { is_active = enabled })
  pure (pppoe_view (serialize_pppoe_user (record row { is_active = enabled })))

unfoldable pub set_customer_enabled : Router → ServiceType → String → Bool → App CustomerView
unfolding switch_customer switched switch_event
set_customer_enabled router service_type user_uid enabled = with_session do
  result ← switch_customer router service_type user_uid enabled
  create_log (switched service_type enabled) none (some router.id) "info"
      (some (switch_event service_type enabled))
  commit
  pure result

unfoldable pub remove_customer : Router → ServiceType → String → App (Unit {0})
unfolding find_hotspot_customer find_pppoe_customer
remove_customer router ServiceType.hotspot user_uid = do
  row ← find_hotspot_customer router user_uid
  delete_hotspot_access router.id row.otp
  delete_hotspot_user row
  create_log "hotspot customer deleted" none (some router.id) "info" (some "hotspot.deleted")
remove_customer router ServiceType.pppoe user_uid = do
  row ← find_pppoe_customer router user_uid
  delete_pppoe_access router.id row.pppoe_username
  delete_ppp_user row
  create_log "pppoe customer deleted" none (some router.id) "info" (some "pppoe.deleted")

unfoldable pub delete_customer : Router → ServiceType → String → App (Unit {0})
unfolding remove_customer
delete_customer router service_type user_uid =
    with_session do remove_customer router service_type user_uid; commit

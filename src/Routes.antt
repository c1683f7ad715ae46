-- ===== src/Routes.antt =====
-- mono.py: the routes of one router, each behind the operator's token and the operator's routers.
pub mod Startup
pub mod Service
pub mod Guarded
use mikrotik.Prelude.{
  ℕ, String, Bool, false, not, Option, none, some, List, [], ◌∷◌, map, str_eq, mem_text, truthy?,
  or_text, if◌then◌else◌,
}
use mikrotik.Models.{Router, Package, Log, ServiceType}
use mikrotik.World.{App, http, pure, raise, lift, attempt, raise_if, with_session, ◌>>=◌, ◌>>◌}
use mikrotik.Crud.{get_logs}
use mikrotik.Auth.{get_current_user}
use mikrotik.Access.{
  HotspotView, PppView, CustomerView, HotspotUserRequest, PppUserRequest, list_hotspot_users,
  list_pppoe_users, create_hotspot_customer, create_pppoe_customer, set_customer_enabled,
  delete_customer,
}
use mikrotik.ActiveUsers.{HotspotActive, PppActive, get_hotspot_active_users, get_ppp_active_users}
use mikrotik.Mikrotik.{fetch_rt_rx_tx_data}
use mikrotik.Mikrotik.Traffic.{Traffic}
use mikrotik.Onboarding.Creation.{Refreshed, refresh_captive_portal}
use mikrotik.Packages.{
  PackageCreateRequest, PackageUpdateRequest, list_packages, add_package, update_package,
  retire_package,
}
use mikrotik.Payments.{PaymentView, SessionView, list_payments, list_payment_sessions}
use mikrotik.Providers.{mask_phone}
use mikrotik.Routers.{get_router_for_user}

-- A call in a thread, which goes on after the time is over; `in_time` says whether the answer came
-- before that.
unfoldable pub router_call : {A : Type 0} → Bool → App A → App A
router_call in_time call = do
  outcome ← attempt call
  if in_time then lift outcome else raise (http 504 "Router operation timed out")

-- The routes below `/api/v1/routers/{router_uid}/` that pass a router on to a service.
pub data RouterRoute : Type 0 where
  refresh_router_portal : RouterRoute
  packages : RouterRoute
  new_package : PackageCreateRequest → RouterRoute
  edit_package : String → PackageUpdateRequest → RouterRoute
  remove_package : String → RouterRoute
  hotspot_users : RouterRoute
  add_hotspot_user : HotspotUserRequest → RouterRoute
  remove_hotspot_user : String → RouterRoute
  pppoe_users : RouterRoute
  add_pppoe_user : PppUserRequest → RouterRoute
  remove_pppoe_user : String → RouterRoute
  -- `/hotspot-users/{user_uid}/{action}` and `/pppoe-users/{user_uid}/{action}`
  user_action : ServiceType → String → String → RouterRoute
  active_users : RouterRoute
  traffic : RouterRoute
  payments : RouterRoute
  payment_sessions : RouterRoute
  logs : RouterRoute

pub record LogLine : Type 0 where
  pub id : ℕ
  pub timestamp : ℕ
  pub level : String
  pub event_type : Option String
  pub description : String
  pub phone_number : Option String

unfoldable pub log_line : Log → LogLine
log_line row = record {
  id = row.id;
  timestamp = row.timestamp;
  level = row.level;
  event_type = row.event_type;
  description = row.description;
  phone_number =
      if truthy? row.phone_number then some (mask_phone (or_text row.phone_number "")) else none;
}

pub data Answer : Type 0 where
  refreshed : Refreshed → Answer
  package_list : List Package → Answer
  one_package : Package → Answer
  hotspot_list : List HotspotView → Answer
  pppoe_list : List PppView → Answer
  new_hotspot_user : HotspotView → String → String → Answer
  new_pppoe_user : PppView → Answer
  customer : CustomerView → Answer
  no_content : Answer
  active : List HotspotActive → List PppActive → Answer
  traffic_rates : Traffic → Answer
  payment_list : List PaymentView → Answer
  session_list : List SessionView → Answer
  log_list : List LogLine → Answer

unfoldable pub answered_by : {A : Type 0} → (A → Answer) → App A → App Answer
answered_by f m = do a ← m; pure (f a)

-- `asyncio.gather` of the two calls: both are made, and the first exception is raised.
unfoldable pub active_answer : Bool → Router → App Answer
unfolding router_call
active_answer in_time router = do
  hotspot ← attempt (router_call in_time (get_hotspot_active_users router.id))
  pppoe ← attempt (router_call in_time (get_ppp_active_users router.id))
  online ← lift hotspot
  dialled ← lift pppoe
  pure (active online dialled)

unfoldable pub log_answer : Router → App Answer
unfolding log_line
log_answer router =
    with_session do rows ← get_logs (some router.id); pure (log_list (map log_line rows))

-- the call of the service
unfoldable pub answer_route : Bool → RouterRoute → Router → App Answer
unfolding answered_by router_call active_answer log_answer
answer_route in_time refresh_router_portal router =
    answered_by refreshed (router_call in_time (refresh_captive_portal router.id))
answer_route in_time packages router = answered_by package_list (list_packages router false)
answer_route in_time (new_package body) router = answered_by one_package (add_package router body)
answer_route in_time (edit_package uid body) router =
    answered_by one_package (update_package router uid body)
answer_route in_time (remove_package uid) router =
    answered_by one_package (retire_package router uid)
answer_route in_time hotspot_users router = answered_by hotspot_list (list_hotspot_users router)
answer_route in_time (add_hotspot_user body) router =
    answered_by (λ (view, username, password). new_hotspot_user view username password)
      (router_call in_time (create_hotspot_customer router body))
answer_route in_time (remove_hotspot_user uid) router =
    answered_by (λ _. no_content)
      (router_call in_time (delete_customer router ServiceType.hotspot uid))
answer_route in_time pppoe_users router = answered_by pppoe_list (list_pppoe_users router)
answer_route in_time (add_pppoe_user body) router =
    answered_by new_pppoe_user (router_call in_time (create_pppoe_customer router body))
answer_route in_time (remove_pppoe_user uid) router =
    answered_by (λ _. no_content)
      (router_call in_time (delete_customer router ServiceType.pppoe uid))
answer_route in_time (user_action service uid action) router =
    answered_by customer
      (router_call in_time (set_customer_enabled router service uid (str_eq action "enable")))
answer_route in_time active_users router = active_answer in_time router
answer_route in_time traffic router =
    answered_by traffic_rates (router_call in_time (fetch_rt_rx_tx_data router.id))
answer_route in_time payments router = answered_by payment_list (list_payments router)
answer_route in_time payment_sessions router =
    answered_by session_list (list_payment_sessions router)
answer_route in_time logs router = log_answer router

-- `action not in {"enable", "disable"}`, before the router is looked up
unfoldable pub is_bad_action : RouterRoute → Bool
is_bad_action (user_action service uid action) = not (mem_text action ("enable" ∷ "disable" ∷ []))
is_bad_action _ = false

-- A request to one of these routes: `payload` is what decoding its token gives.
unfoldable pub serve_router_route : Option (ℕ × ℕ) → String → Bool → RouterRoute → App Answer
unfolding answer_route is_bad_action
serve_router_route payload router_uid in_time route = do
  current_user ← get_current_user payload
  raise_if (is_bad_action route) (http 404 "Action not found")
  router ← get_router_for_user router_uid current_user
  answer_route in_time route router

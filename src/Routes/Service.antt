-- ===== src/Routes/Service.antt =====
-- mono.py: the other routes.
use mikrotik.Prelude.{ℕ, String, Bool, not, Option, List, map}
use mikrotik.Models.{AdminUser, Role}
use mikrotik.World.{App, http, pure, raise, or_raise, raise_if, with_session, ◌>>=◌, ◌>>◌}
use mikrotik.Auth.{get_current_user, require_superadmin, logout, change_password, add_admin_user}
use mikrotik.Crud.{is_deleted, list_admin_users, get_payment_session_by_public_id, get_router_by_id}
use mikrotik.Maintenance.{ExpiryCounts, expire_access}
use mikrotik.Onboarding.Creation.{OnboardingRequest, Onboarded, create_onboarding}
use mikrotik.Payments.{
  PublicResponse, retry_provisioning, process_mpesa_callback, process_kopokopo_callback,
}
use mikrotik.Providers.{MpesaValues, KopokopoValues, verify_kopokopo_signature}
use mikrotik.Routers.{Overview, Checked, may_manage, delete_router, check_router, check_all_routers}
use mikrotik.Routes.{router_call}

pub record UserView : Type 0 where
  pub id : ℕ
  pub username : String
  pub email : Option String
  pub role : Role
  pub is_active : Bool

unfoldable pub user_view : AdminUser → UserView
user_view row = record {
  id = row.id;
  username = row.username;
  email = row.email;
  role = row.role;
  is_active = row.is_active;
}

-- `Depends(get_current_user)` and `Depends(require_superadmin)`
unfoldable pub superadmin_of : Option (ℕ × ℕ) → App AdminUser
superadmin_of payload = do user ← get_current_user payload; require_superadmin user

unfoldable pub me : Option (ℕ × ℕ) → App UserView
unfolding user_view
me payload = do user ← get_current_user payload; pure (user_view user)

unfoldable pub logout_route : Option (ℕ × ℕ) → App (Unit {0})
logout_route payload = do user ← get_current_user payload; logout user.id

unfoldable pub change_password_route : Option (ℕ × ℕ) → String → String → App (Unit {0})
change_password_route payload current_password new_password = do
  user ← get_current_user payload
  change_password user.id current_password new_password

unfoldable pub create_user_route :
    Option (ℕ × ℕ) → String → String → Role → Option String → App UserView
unfolding superadmin_of user_view
create_user_route payload username password role email = do
  superadmin_of payload
  user ← add_admin_user username password role email
  pure (user_view user)

unfoldable pub list_users_route : Option (ℕ × ℕ) → App (List UserView)
unfolding superadmin_of user_view
list_users_route payload = do
  superadmin_of payload
  with_session do rows ← list_admin_users; pure (map user_view rows)

unfoldable pub delete_router_route : Option (ℕ × ℕ) → String → App (Unit {0})
delete_router_route payload router_uid = do
  user ← get_current_user payload
  delete_router router_uid user

unfoldable pub routers_status : Option (ℕ × ℕ) → Bool → App Overview
routers_status payload in_time = do
  user ← get_current_user payload
  router_call in_time (check_all_routers user)

unfoldable pub one_router_status : Option (ℕ × ℕ) → String → Bool → App Checked
one_router_status payload router_uid in_time = do
  user ← get_current_user payload
  router_call in_time (check_router router_uid user)

unfoldable pub begin_onboarding : Option (ℕ × ℕ) → OnboardingRequest → App Onboarded
begin_onboarding payload body = do user ← get_current_user payload; create_onboarding body user

-- the guards of the retry, which tell a stranger nothing
unfoldable pub check_retry : String → AdminUser → App (Unit {0})
check_retry payment_id current_user = with_session do
  found ← get_payment_session_by_public_id payment_id
  session ← or_raise found (http 404 "Payment session not found")
  place ← get_router_by_id session.router_id
  router ← or_raise place (http 404 "Payment session not found")
  raise_if (is_deleted router.onboarding_status) (http 404 "Payment session not found")
  raise_if (not (may_manage current_user router)) (http 404 "Payment session not found")

unfoldable pub retry_payment_provisioning : Option (ℕ × ℕ) → String → Bool → App PublicResponse
unfolding check_retry
retry_payment_provisioning payload payment_id in_time = do
  user ← get_current_user payload
  check_retry payment_id user
  router_call in_time (retry_provisioning payment_id)

unfoldable pub run_expiry_job : Option (ℕ × ℕ) → Bool → App ExpiryCounts
unfolding superadmin_of
run_expiry_job payload in_time = do superadmin_of payload; router_call in_time expire_access

-- `none` is a body that is not JSON.
unfoldable pub mpesa_webhook : Option MpesaValues → App (Unit {0})
mpesa_webhook payload = do
  values ← or_raise payload (http 400 "Invalid JSON")
  process_mpesa_callback values

-- `expected` is the signature of the raw body.
unfoldable pub kopokopo_webhook :
    String → Option String → Option KopokopoValues → Bool → App (Unit {0})
kopokopo_webhook expected signature payload in_time = do
  raise_if (not (verify_kopokopo_signature expected signature))
      (http 401 "Invalid webhook signature")
  values ← or_raise payload (http 400 "Invalid JSON")
  router_call in_time (process_kopokopo_callback values)

unfoldable pub retired_legacy_stk : App (Unit {0})
retired_legacy_stk = raise (http 410 "Use the portal-scoped payment API")

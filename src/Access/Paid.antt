-- ===== src/Access/Paid.antt =====
-- services/access_service.py: accounts for payments. The functions assign attributes of the payment
-- session that they are given: its new value comes back beside the result.
use mikrotik.Prelude.{
  ℕ, ◌+◌, ◌*◌, String, Bool, true, false, not, ◌&&◌, Option, none, some, truthy?, or_text, ltb,
  if◌then◌else◌,
}
use mikrotik.Models.{HotspotUser, Package, PaymentSession, ServiceType}
use mikrotik.World.{App, http, pure, gets, or_raise, raise_if, flush, ◌>>=◌, ◌>>◌}
use mikrotik.Crud.{next_id, new_uid, get_ppp_user_by_username, save_session}
use mikrotik.Mikrotik.{
  decrypt_secret, encrypt_secret, provision_hotspot_access, provision_pppoe_access,
}
use mikrotik.Access.Rows.{
  username_of, new_password, add_hotspot_user, save_hotspot_user, save_ppp_user, hotspot_user_named,
}

-- "hs-" if the package is for HotSpot, else nothing
unfoldable pub prefix_of : ServiceType → String
prefix_of ServiceType.hotspot = "hs-"
prefix_of ServiceType.pppoe = ""

abbrev pub Credentials : Type 0
Credentials = String × String × PaymentSession

unfoldable pub new_credentials : PaymentSession → Package → App Credentials
unfolding prefix_of
new_credentials row pkg = do
  let username = username_of (prefix_of pkg.service_type) row.public_id
  password ← new_password
  encrypted ← encrypt_secret password
  now ← gets (λ s. s.now)
  let row' : PaymentSession = record row {
    access_username = some username;
    access_password_encrypted = some encrypted;
    credentials_expires_at = some (now + 30 * 60);
  }
  save_session row'
  flush
  pure (username, password, row')

unfoldable pub known_credentials : PaymentSession → App Credentials
known_credentials row = do
  password ← decrypt_secret (or_text row.access_password_encrypted "")
  pure (or_text row.access_username "", password, row)

unfoldable pub payment_credentials : PaymentSession → Package → App Credentials
unfolding new_credentials known_credentials
payment_credentials row pkg =
    if truthy? row.access_username && truthy? row.access_password_encrypted
    then known_credentials row
    else new_credentials row pkg

-- The account of a session that has none on the router yet.
unfoldable pub new_paid_user : PaymentSession → Package → String → String → App HotspotUser
new_paid_user row pkg username password = do
  id ← next_id
  uid ← new_uid
  now ← gets (λ s. s.now)
  encrypted ← encrypt_secret password
  pure (record {
    id = id;
    uid = uid;
    phone_number = row.phone_number;
    amount = row.amount;
    otp = username;
    password_encrypted = some encrypted;
    is_active = true;
    expires_at = none;
    package_id = some pkg.id;
    router_id = row.router_id;
    created_at = now;
  })

-- `if user is None` of `prepare_paid_hotspot_session`
unfoldable pub store_prepared :
    PaymentSession → Package → String → String → Option HotspotUser → App ℕ
unfolding new_paid_user
store_prepared row pkg username password none = do
  user ← new_paid_user row pkg username password
  add_hotspot_user user
  pure user.id
store_prepared row pkg username password (some user) = do
  encrypted ← encrypt_secret password
  save_hotspot_user (record user {
    phone_number = row.phone_number;
    amount = row.amount;
    password_encrypted = some encrypted;
    is_active = true;
    expires_at = none;
    package_id = some pkg.id;
  })
  pure user.id

-- Whether the package is not for HotSpot.
abbrev pub not_hotspot : ServiceType → Bool
not_hotspot ServiceType.hotspot = false
not_hotspot ServiceType.pppoe = true

unfoldable pub prepare_paid_hotspot_session : PaymentSession → Package → App (ℕ × String)
unfolding payment_credentials store_prepared
prepare_paid_hotspot_session row pkg = do
  raise_if (not_hotspot pkg.service_type)
      (http 422 "Only HotSpot sessions can be prepared before payment")
  (username, password, row') ← payment_credentials row pkg
  provision_hotspot_access row'.router_id username password pkg.router_profile pkg.validity_minutes
      true true
  user ← hotspot_user_named row'.router_id username
  id ← store_prepared row' pkg username password user
  flush
  pure (id, password)

-- `if user is None`, `elif not user.is_active` of `provision_paid_session`
unfoldable pub ensure_paid_user :
    PaymentSession → Package → String → String → Option HotspotUser → App HotspotUser
unfolding new_paid_user
ensure_paid_user row pkg username password none = do
  provision_hotspot_access row.router_id username password pkg.router_profile pkg.validity_minutes
      true true
  user ← new_paid_user row pkg username password
  add_hotspot_user user
  flush
  pure user
ensure_paid_user row pkg username password (some user) = if user.is_active then pure user else do
  provision_hotspot_access row.router_id username password pkg.router_profile pkg.validity_minutes
      true true
  pure user

-- `if user.expires_at is None: user.expires_at = deadline`
abbrev pub first_expiry : Option ℕ → ℕ → Option ℕ
first_expiry none deadline = some deadline
first_expiry (some t) deadline = some t

-- A user id, the password that the customer is told, and the session.
abbrev pub Provisioned : Type 0
Provisioned = ℕ × String × PaymentSession

unfoldable pub provision_hotspot : PaymentSession → Package → App Provisioned
unfolding payment_credentials ensure_paid_user
provision_hotspot row pkg = do
  now ← gets (λ s. s.now)
  (username, password, row') ← payment_credentials row pkg
  found ← hotspot_user_named row'.router_id username
  user ← ensure_paid_user row' pkg username password found
  encrypted ← encrypt_secret password
  save_hotspot_user (record user {
    phone_number = row'.phone_number;
    amount = row'.amount;
    password_encrypted = some encrypted;
    is_active = true;
    package_id = some pkg.id;
    expires_at = first_expiry user.expires_at (now + pkg.validity_minutes * 60);
  })
  flush
  pure (user.id, password, row')

-- `max(expires_on or now, now) + timedelta(minutes=minutes)`
unfoldable pub renewed : Option ℕ → ℕ → ℕ → ℕ
renewed none now minutes = now + minutes * 60
renewed (some t) now minutes = (if ltb now t then t else now) + minutes * 60

unfoldable pub provision_pppoe : PaymentSession → Package → App Provisioned
unfolding renewed
provision_pppoe row pkg = do
  now ← gets (λ s. s.now)
  raise_if (not (truthy? row.customer_reference)) (http 422 "PPPoE account reference is required")
  found ← get_ppp_user_by_username row.router_id (or_text row.customer_reference "")
  user ← or_raise found (http 404 "PPPoE account was not found")
  password ← decrypt_secret user.pppoe_password
  provision_pppoe_access row.router_id user.pppoe_username password pkg.router_profile true true
  save_ppp_user (record user {
    profile = some pkg.router_profile;
    package_id = some pkg.id;
    is_active = true;
    expires_on = some (renewed user.expires_on now pkg.validity_minutes);
  })
  let row' : PaymentSession = record row {
    access_username = some user.pppoe_username;
    access_password_encrypted = none;
    credentials_expires_at = none;
  }
  save_session row'
  flush
  pure (user.id, "", row')

unfoldable pub provision_paid_session : PaymentSession → Package → App Provisioned
unfolding provision_hotspot provision_pppoe
provision_paid_session row pkg =
    if not_hotspot pkg.service_type then provision_pppoe row pkg else provision_hotspot row pkg

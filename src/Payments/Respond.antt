-- ===== src/Payments/Respond.antt =====
-- services/payment_service.py: what a customer is told of a session, and the portal.
use mathlib.Core.Option
use mikrotik.Prelude.{
  ℕ, str_eq, String, Bool, true, false, not, ◌&&◌, Option, none, some, List, map, find, truthy?,
  or_text, join, mem_text, leb, ◌==◌, if◌then◌else◌,
}
use mikrotik.Models.{PaymentSession, Package, Router, ServiceType, Status}
use mikrotik.World.{App, Env, http, pure, gets, or_raise, raise_if, with_session, ◌>>=◌, ◌>>◌}
use mikrotik.Crud.{same_status, get_router_by_portal_slug, get_packages}
use mikrotik.Mikrotik.{decrypt_secret}
use mikrotik.Access.{not_hotspot}
use mikrotik.Providers.{mask_phone}

-- `payment_access_token` of security.py
abbrev pub payment_access_token : Env → String → String
payment_access_token env public_id = env.keyed_hash (join "payment:" public_id)

-- `constant_time_token_matches` of security.py
abbrev pub token_matches : Env → String → String → Bool
token_matches env value expected = str_eq (env.sha256 value) expected

pub record PublicResponse : Type 0 where
  pub payment_id : String
  pub status : Status
  pub provider : String
  pub amount : ℕ
  pub currency : String
  pub service_type : ServiceType
  pub phone_number : String
  pub message : Option String
  pub expires_at : ℕ
  pub status_token : Option String
  -- a name and a password
  pub credentials : Option (String × String)
  pub account : Option (Option String)

-- `credentials_expires_at and credentials_expires_at >= now`
abbrev pub still_shown : Option ℕ → ℕ → Bool
still_shown none now = false
still_shown (some t) now = leb now t

-- the test before `response["credentials"]`
unfoldable pub shows_credentials : PaymentSession → ℕ → Bool
shows_credentials row now =
    same_status row.status Status.provisioned
    && not (not_hotspot row.service_type)
    && still_shown row.credentials_expires_at now
    && truthy? row.access_password_encrypted

-- the part of a response that every session has
unfoldable pub base_response : PaymentSession → Option String → PublicResponse
base_response row token = record {
  payment_id = row.public_id;
  status = row.status;
  provider = row.provider;
  amount = row.amount;
  currency = row.currency;
  service_type = row.service_type;
  phone_number = mask_phone row.phone_number;
  message = row.result_description;
  expires_at = row.expires_at;
  status_token = token;
  credentials = none;
  account = none;
}

-- the two `if` branches that add to a response
unfoldable pub add_access : PaymentSession → ℕ → PublicResponse → App PublicResponse
unfolding shows_credentials
add_access row now base =
    if shows_credentials row now
    then (do
      password ← decrypt_secret (or_text row.access_password_encrypted "")
      pure (record base { credentials = some (or_text row.access_username "", password) }))
    else if same_status row.status Status.provisioned && not_hotspot row.service_type
    then pure (record base { account = some row.access_username })
    else pure base

-- `payment_access_token` if it is asked for
unfoldable pub token_if : Bool → Env → String → Option String
token_if true env public_id = some (payment_access_token env public_id)
token_if false env public_id = none

unfoldable pub public_response : PaymentSession → Bool → App PublicResponse
unfolding base_response add_access token_if
public_response row include_token = do
  env ← gets (λ s. s.env)
  now ← gets (λ s. s.now)
  add_access row now (base_response row (token_if include_token env row.public_id))

pub record PortalPackage : Type 0 where
  pub uid : String
  pub name : String
  pub description : Option String
  pub price : ℕ
  pub currency : String
  pub service_type : ServiceType
  pub validity_minutes : ℕ
  pub rate_limit : Option String

pub record Portal : Type 0 where
  pub isp_identifier : Option String
  pub portal_slug : String
  pub name : String
  pub payment_provider : String
  pub packages : List PortalPackage

unfoldable pub portal_package : Package → PortalPackage
portal_package p = record {
  uid = p.uid;
  name = p.name;
  description = p.description;
  price = p.price;
  currency = "KES";
  service_type = p.service_type;
  validity_minutes = p.validity_minutes;
  rate_limit = p.rate_limit;
}

-- the guards that the portal and a new payment share
unfoldable pub open_portal : String → App Router
open_portal portal_slug = do
  found ← get_router_by_portal_slug portal_slug
  router ← or_raise found (http 404 "Portal not found")
  raise_if (not router.portal_enabled) (http 404 "Portal not found")
  providers ← gets (λ s. s.env.settings.payment_providers)
  raise_if (not (mem_text router.payment_provider providers))
      (http 503 "This portal's payment provider is not enabled")
  pure router

-- `router.owner.username if router.owner else None`
unfoldable pub owner_name : Router → App (Option String)
owner_name router = gets λ s. elim router.owner_id [
  | none ↦ none
  | some id ↦ Option.map (λ u. u.username) (find (λ u. u.id == id) s.session.admin_users)
]

unfoldable pub public_portal : String → App Portal
unfolding open_portal owner_name portal_package
public_portal portal_slug = with_session do
  router ← open_portal portal_slug
  packages ← get_packages (some router.id) true
  owner ← owner_name router
  pure (record {
    isp_identifier = owner;
    portal_slug = router.portal_slug;
    name = router.name;
    payment_provider = router.payment_provider;
    packages = map portal_package packages;
  })

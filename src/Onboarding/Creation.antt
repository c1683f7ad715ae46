-- ===== src/Onboarding/Creation.antt =====
-- services/onboarding_service.py: a new onboarding, and the refresh of a captive portal.
use mikrotik.Prelude.{
  ℕ, ◌+◌, ◌*◌, String, Bool, true, false, not, ◌||◌, Option, none, some, [], ◌∷◌, truthy, str_eq,
  or_text, is_some, mem_text, if◌then◌else◌,
}
use mikrotik.Models.{AdminUser, Router, ConnectionMode, OnboardingStatus}
use mikrotik.World.{
  App, Url, Exn, http, integrity, fault, pure, raise, gets, or_raise, raise_if, catch, attempt,
  draw, commit, rollback, with_session, ◌>>=◌, ◌>>◌,
}
use mikrotik.Crud.{next_id, new_uid, create_log, create_router, get_router_by_id, is_deleted}
use mikrotik.Mikrotik.{encrypt_secret, refresh_managed_hotspot_login}
use mikrotik.AgentClient.{vpn_agent_enabled, provision_l2tp_peer, revoke_l2tp_peer}
use mikrotik.Routers.{save_router}
use mikrotik.Onboarding.{valid_claim_ip}
use mikrotik.Onboarding.Texts.{
  texts, api_username, l2tp_username, install_command, tls_preflight_command, portal_redirect_url,
}
use mikrotik.Onboarding.Page.{portal_redirect_html}
use mikrotik.Onboarding.Script.{build_script}
use mikrotik.Onboarding.Views.{RouterView, serialize_router, portal_identity}

-- `RouterOnboardingRequest` of schemas.py
pub record OnboardingRequest : Type 0 where
  pub replace_managed_tunnel : Bool
  pub name : String
  pub portal_slug : String
  pub payment_provider : String

-- The three secrets of an onboarding.
pub record Secrets : Type 0 where
  pub api_password : String
  pub l2tp_password : String
  pub claim_token : String

pub record Onboarded : Type 0 where
  pub router : RouterView
  pub expires_at : Option ℕ
  pub script : String
  pub download_url : String
  pub install_command : String
  pub tls_preflight_command : String
  pub legacy_ca_common_name : String
  pub peer_username : String
  pub peer_password : String
  pub peer_address : Option String
  pub peer_provisioned : Bool

-- an HTTPS origin without a path
unfoldable pub is_api_origin : Url → Bool
is_api_origin url = not (
    not (str_eq url.scheme "https")
    || not (truthy url.hostname)
    || truthy url.username
    || truthy url.password
    || truthy url.query
    || truthy url.fragment
    || truthy url.path)

-- the guards before anything is written
unfoldable pub check_onboarding : OnboardingRequest → App (Unit {0})
unfolding is_api_origin
check_onboarding body = do
  env ← gets (λ s. s.env)
  raise_if (not (truthy env.settings.router_control_host))
      (http 503 "Router control host is not configured")
  raise_if (not (is_api_origin (env.split_url env.settings.api_public_url)))
      (http 503 "Router onboarding requires an HTTPS API_PUBLIC_URL origin")
  raise_if (not (mem_text body.payment_provider env.settings.payment_providers))
      (http 422 "Payment provider is not enabled")

-- `secrets.token_urlsafe(24)`, the same again, and `random_token()`
unfoldable pub new_secrets : App Secrets
new_secrets = do
  api_password ← draw (λ env. env.token_urlsafe)
  l2tp_password ← draw (λ env. env.token_urlsafe)
  claim_token ← draw (λ env. env.token_urlsafe)
  pure (record {
    api_password = api_password;
    l2tp_password = l2tp_password;
    claim_token = claim_token;
  })

-- the row as it is first inserted
unfoldable pub insert_pending : OnboardingRequest → AdminUser → Secrets → App Router
insert_pending body current_user secrets = do
  id ← next_id
  uid ← new_uid
  now ← gets (λ s. s.now)
  env ← gets (λ s. s.env)
  encrypted ← encrypt_secret secrets.api_password
  create_router (record {
    id = id;
    uid = uid;
    name = body.name;
    ip_address = "0.0.0.0";
    port = 8728;
    username = "pending";
    password = encrypted;
    owner_id = some current_user.id;
    portal_slug = body.portal_slug;
    portal_enabled = true;
    payment_provider = body.payment_provider;
    connection_mode = ConnectionMode.l2tp;
    onboarding_status = OnboardingStatus.pending;
    onboarding_download_hash = none;
    onboarding_script_encrypted = none;
    onboarding_token_hash = some (env.sha256 secrets.claim_token);
    onboarding_token_expires_at = some (now + env.settings.onboarding_token_minutes * 60);
    last_seen_at = none;
    last_error = none;
    routeros_version = none;
    created_at = now;
    updated_at = now;
  })

-- the address that the VPN agent gives, if there is an agent
unfoldable pub assign_peer : Router → String → App (Option String)
assign_peer row l2tp_password = do
  enabled ← gets (λ s. vpn_agent_enabled s.env)
  if enabled
      then (do
        address ← provision_l2tp_peer (l2tp_username row.uid) l2tp_password
        pure (some address))
      else pure none

unfoldable pub assigned_address : Router → Option String → App String
assigned_address row none = pure row.ip_address
assigned_address row (some address) = valid_claim_ip address

-- `isp_identifier or _portal_identity(router)`
unfoldable pub identity_or_owner : String → Router → App (Option String)
identity_or_owner isp_identifier row = gets (λ s.
    if truthy isp_identifier
    then some isp_identifier
    else portal_identity s.session.admin_users row)

-- the rest of the `try` block
unfoldable pub finish_onboarding :
    OnboardingRequest → AdminUser → Secrets → Router → Option String → App Onboarded
unfolding assigned_address identity_or_owner
finish_onboarding body current_user secrets row assigned = do
  address ← assigned_address row assigned
  let row' : Router = record row { username = api_username row.uid; ip_address = address }
  save_router row'
  create_log "Router onboarding created" none (some row'.id) "info"
      (some "router.onboarding.created")
  env ← gets (λ s. s.env)
  identity ← identity_or_owner current_user.username row'
  let script : String =
      build_script env row' secrets.claim_token secrets.api_password secrets.l2tp_password
        body.replace_managed_tunnel identity
  download_token ← draw (λ env. env.token_urlsafe)
  encrypted ← encrypt_secret script
  let final : Router = record row' {
    onboarding_download_hash = some (env.sha256 download_token);
    onboarding_script_encrypted = some encrypted;
  }
  save_router final
  commit
  users ← gets (λ s. s.session.admin_users)
  let download_url : String =
      texts
        (env.settings.api_public_url ∷ "/api/v1/router-onboarding/" ∷ final.uid ∷ "/script" ∷ [])
  pure (record {
    router = serialize_router env users final;
    expires_at = final.onboarding_token_expires_at;
    script = script;
    download_url = download_url;
    install_command = install_command final.uid download_url download_token;
    tls_preflight_command = tls_preflight_command env;
    legacy_ca_common_name = "ISRG Root X1";
    peer_username = l2tp_username row.uid;
    peer_password = secrets.l2tp_password;
    peer_address = if str_eq final.ip_address "0.0.0.0" then none else some final.ip_address;
    peer_provisioned = is_some assigned;
  })

unfoldable pub revoke_if : Bool → String → App (Unit {0})
revoke_if provisioned username =
    if provisioned then (do revoked ← attempt (revoke_l2tp_peer username); pure tt) else pure tt

unfoldable pub onboarding_error : {A : Type 0} → Exn → App A
onboarding_error integrity = raise (http 409 "Portal slug is already in use")
onboarding_error (http code detail) = raise (http code detail)
onboarding_error (fault message) = raise (fault message)

-- `except Exception`
unfoldable pub undo_onboarding : {A : Type 0} → Bool → String → Exn → App A
unfolding revoke_if onboarding_error
undo_onboarding provisioned username e = do
  rollback
  revoke_if provisioned username
  onboarding_error e

unfoldable pub create_onboarding : OnboardingRequest → AdminUser → App Onboarded
unfolding check_onboarding new_secrets insert_pending assign_peer finish_onboarding undo_onboarding
create_onboarding body current_user = do
  check_onboarding body
  secrets ← new_secrets
  with_session do
    row ← catch (insert_pending body current_user secrets) (undo_onboarding false "")
    assigned ← catch (assign_peer row secrets.l2tp_password) (undo_onboarding false "")
    catch (finish_onboarding body current_user secrets row assigned)
        (undo_onboarding (is_some assigned) (l2tp_username row.uid))

-- the document of the router's portal, and its uid
unfoldable pub portal_document : ℕ → App (String × String)
portal_document router_id = with_session do
  found ← get_router_by_id router_id
  router ← or_raise found (http 404 "Router not found")
  raise_if (is_deleted router.onboarding_status) (http 404 "Router not found")
  raise_if (not router.portal_enabled) (http 409 "Enable the customer portal before refreshing it")
  identity ← gets (λ s. or_text (portal_identity s.session.admin_users router) "")
  raise_if (not (truthy identity)) (http 409 "Router has no ISP portal identity")
  url ← gets (λ s. portal_redirect_url s.env router identity)
  raise_if (not (truthy url)) (http 503 "Router onboarding requires an HTTPS API_PUBLIC_URL origin")
  pure (router.uid, portal_redirect_html url)

pub record Refreshed : Type 0 where
  pub router_uid : String
  pub template_version : ℕ
  pub files_updated : ℕ

unfoldable pub refresh_captive_portal : ℕ → App Refreshed
unfolding portal_document
refresh_captive_portal router_id = do
  (router_uid, html) ← portal_document router_id
  updated ← refresh_managed_hotspot_login router_id html router_uid
  with_session do
    create_log "Captive portal template v1 refreshed" none (some router_id) "info"
        (some "router.portal.refreshed")
    commit
  pure (record { router_uid = router_uid; template_version = 1; files_updated = updated })

-- ===== src/Tests/Platform.antt =====
-- The theorems on runs of the payment service, the configuration, the scripts, the routes and the worker.
use Prim.Native.Char.{code, Char}
use mikrotik.Prelude.{
  String, ◌≡◌, ◌⊎◌, ◌≤◌, refl, true, false, some, none, List, [], ◌∷◌, ap, subst, if◌then◌else◌,
  str_eq, length, or_text, Option, ◌==◌, ◌||◌, not,
}
use mikrotik.World.{World, Result, ok}
use mikrotik.Onboarding.Creation.{OnboardingRequest}
use mikrotik.Settings.{Settings, Os, is_production}
use mikrotik.Settings.Load.{get_settings}
use mikrotik.Settings.Production.{IsSafe, get_settings-IsSafe}
use mikrotik.Agent.{mutate, rotate, known_address, address_for, entry_line}
use mikrotik.Agent.Refinement.{leases, promised, next_address, mutate-refines}
use mikrotik.Jobs.{run, Maintained}
use mikrotik.Jobs.Rounds.{Rounds, run-every_round}
use mikrotik.Onboarding.Texts.Quoting.{with_char}
use mikrotik.Payments.{complete_payment}
use mikrotik.Payments.Ledger.{settled, still_recorded}
use mikrotik.Payments.Ledger.Runs.{Run, Step, Run-settled}
use mikrotik.Routes.{packages, serve_router_route}
use mikrotik.Routes.Guarded.{IsRefused, IsServed, serve_router_route-Guarded}
use mikrotik.Tests.Sample.{store, peer, other_peer, peer_password, waiting}

abbrev paid : World
paid = (complete_payment "pay-7" (some "R7") "0" none waiting).1

Run-settled_example :
    (settled paid.db ≡ true) × (still_recorded waiting.db.payments paid.db.payments ≡ true)
Run-settled_example = Run-settled waiting paid refl refl (
    Run.after waiting waiting paid (Run.idle waiting)
      (Step.completed "pay-7" (some "R7") "0" none waiting))

abbrev secret : String
secret = "0123456789abcdef0123456789abcdef"

abbrev os : Os
os = record {
  getenv = λ name.
      if str_eq name "ENVIRONMENT"
      then some "production"
      else if str_eq name "PAYMENT_PROVIDER"
      then some "mpesa"
      else if str_eq name "PAYMENT_PROVIDERS"
      then some "mpesa"
      else if str_eq name "MPESA_VERIFY_CALLBACK"
      then some "true"
      else some secret;
  lower = λ s. s;
  read_int = λ s. some 45;
  read_float = λ s. some 1000000;
  url_scheme = λ s. "https";
  fernet_key = λ s. true;
}

abbrev production : Settings
production = record {
  environment = "production";
  secret_key = secret;
  access_token_expire_minutes = 45;
  cors_origins = secret ∷ [];
  allowed_hosts = secret ∷ [];
  docs_enabled = false;
  api_public_url = secret;
  router_credential_key = secret;
  router_connect_timeout = 1000000;
  router_operation_timeout = 1000000;
  router_control_host = secret;
  router_control_cidr = secret;
  router_allowed_cidrs = secret ∷ [];
  onboarding_token_minutes = 45;
  vpn_agent_socket = secret;
  vpn_agent_shared_secret = secret;
  vpn_agent_timeout = 1000000;
  payment_session_minutes = 45;
  payment_status_token_minutes = 45;
  public_payment_limit = 45;
  public_payment_window_minutes = 45;
  payment_provider = "mpesa";
  payment_providers = "mpesa" ∷ [];
  mpesa_base_url = secret;
  mpesa_consumer_key = secret;
  mpesa_consumer_secret = secret;
  mpesa_business_short_code = secret;
  mpesa_passkey = secret;
  mpesa_transaction_type = secret;
  mpesa_verify_callback = true;
  kopokopo_base_url = secret;
  kopokopo_client_id = secret;
  kopokopo_client_secret = secret;
  kopokopo_api_key = secret;
  kopokopo_till_number = secret;
}

get_settings-IsSafe_example : IsSafe os production
unfolding get_settings is_production mikrotik.Settings.validate mikrotik.Settings.validation_errors
    mikrotik.Settings.strip mikrotik.Settings.getenv_or mikrotik.Settings.credential_errors
    mikrotik.Settings.origin_errors mikrotik.Settings.csv mikrotik.Settings.control_errors
    mikrotik.Settings.provider_errors mikrotik.Settings.mpesa_errors mikrotik.Settings.read_bool
    mikrotik.Settings.mpesa_required
get_settings-IsSafe_example = get_settings-IsSafe os production refl refl

-- A reader of quoted texts: behind a backslash it knows the quote, the dollar, the backslash and a new
-- line, and a bare dollar, which begins a variable, is no text.
abbrev read_quoted : String → Option (String × String)
read_quoted String.[] = none
read_quoted (String.◌∷◌ c String.[]) = if code c == b'"' then some ("", "") else none
read_quoted (String.◌∷◌ c (String.◌∷◌ d s)) =
    let behind = read_quoted s in
    let next = read_quoted (String.◌∷◌ d s) in
    if code c == b'"'
    then some ("", String.◌∷◌ d s)
    else if code c == b'$'
    then none
    else if not (code c == b'\\')
    then with_char c next
    else if code d == b'n'
    then with_char "\n" behind
    else if code d == b'"' || code d == b'$' || code d == b'\\'
    then with_char d behind
    else none

some-inj : {A : Type 0} (a b : A) → some a ≡ some b → a ≡ b
some-inj a b h = ap (λ o. elim o [ none ↦ a | some x ↦ x ]) h

quoted :
    (address : String)
    → address_for store (known_address store peer store.lines) ≡ some address
    → store.split (entry_line store peer (or_text (some peer_password) "") address)
      ≡ peer ∷ "l2tp" ∷ or_text (some peer_password) "" ∷ address ∷ []
unfolding address_for known_address entry_line mikrotik.Agent.is_entry_of mikrotik.Agent.is_managed
    mikrotik.Agent.is_peer_name mikrotik.Agent.address_token or_text
quoted address given =
    subst
      (λ a.
        store.split (entry_line store peer (or_text (some peer_password) "") a)
        ≡ peer ∷ "l2tp" ∷ or_text (some peer_password) "" ∷ a ∷ [])
      (some-inj "10.0.0.5" address given) refl

mutate-refines_example :
    (leases store (mutate store rotate peer (some peer_password)).0.lines other_peer
      ≡ (promised
            (next_address store)
            (leases store store.lines)
            rotate
            peer
            (some peer_password)).0
          other_peer)
    × ((mutate store rotate peer (some peer_password)).1
        ≡ (promised
            (next_address store)
            (leases store store.lines)
            rotate
            peer
            (some peer_password)).1)
mutate-refines_example =
    mutate-refines store rotate peer (some peer_password) refl quoted other_peer

serve_router_route-Guarded_example :
    IsRefused waiting (serve_router_route (some (1, 3)) "router-4" true packages waiting)
    ⊎ IsServed 1 3 "router-4" true packages waiting
        (serve_router_route (some (1, 3)) "router-4" true packages waiting)
serve_router_route-Guarded_example = serve_router_route-Guarded 1 3 "router-4" true packages waiting

run-every_round_example :
    (30 ≤ 45)
    × ((outcomes : List (Result Maintained)) × ((run 45 3 waiting).0 ≡ ok outcomes)
        × (length outcomes ≡ 3)
        × Rounds 45 waiting outcomes (run 45 3 waiting).1)
unfolding mikrotik.Jobs.job_interval
run-every_round_example = run-every_round os 45 3 waiting refl

-- a portal's address that the router in the tables already has
abbrev taken : OnboardingRequest
taken = record {
  replace_managed_tunnel = false;
  name = "Barn";
  portal_slug = "roof";
  payment_provider = "mpesa";
}

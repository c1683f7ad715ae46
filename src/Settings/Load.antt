-- ===== src/Settings/Load.antt =====
-- settings.py: `get_settings`. The numbers of the environment are taken as not negative.
use mikrotik.Prelude.{String, true, Option, none, some}
use mikrotik.Settings.{Settings, Os, getenv_or, strip, rstrip_slash, csv, read_bool, validate}

-- How a start ends: with the configuration, or with a `ValueError` or a `RuntimeError`.
pub data Loaded : Type 0 where
  loaded : Settings → Loaded
  malformed : Loaded
  unsafe : String → Loaded

-- What comes after an exception is not reached.
infixl 5 ◌>>=◌
abbrev ◌>>=◌ : {A B : Type 0} → Option A → (A → Option B) → Option B
none >>= f = none
(some a) >>= f = f a

-- `os.getenv("PAYMENT_PROVIDER", "mpesa").strip().lower()`
unfoldable pub default_provider : Os → String
default_provider os = os.lower (strip (getenv_or os "PAYMENT_PROVIDER" "mpesa"))

-- `Settings(...)`; `none` is the `ValueError` of a number that cannot be read.
unfoldable pub read_settings : Os → Option Settings
unfolding default_provider
read_settings os = do
  access_token_expire_minutes ← os.read_int (getenv_or os "ACCESS_TOKEN_EXPIRE_MINUTES" "60")
  router_connect_timeout ← os.read_float (getenv_or os "ROUTER_CONNECT_TIMEOUT_SECONDS" "4")
  router_operation_timeout ← os.read_float (getenv_or os "ROUTER_OPERATION_TIMEOUT_SECONDS" "10")
  onboarding_token_minutes ← os.read_int (getenv_or os "ONBOARDING_TOKEN_MINUTES" "120")
  vpn_agent_timeout ← os.read_float (getenv_or os "VPN_AGENT_TIMEOUT_SECONDS" "3")
  payment_session_minutes ← os.read_int (getenv_or os "PAYMENT_SESSION_MINUTES" "15")
  payment_status_token_minutes ← os.read_int (getenv_or os "PAYMENT_STATUS_TOKEN_MINUTES" "30")
  public_payment_limit ← os.read_int (getenv_or os "PUBLIC_PAYMENT_LIMIT" "3")
  public_payment_window_minutes ← os.read_int (getenv_or os "PUBLIC_PAYMENT_WINDOW_MINUTES" "5")
  some (record {
    environment = os.lower (strip (getenv_or os "ENVIRONMENT" "development"));
    secret_key = getenv_or os "SECRET_KEY" "change-me-in-production";
    access_token_expire_minutes = access_token_expire_minutes;
    cors_origins = csv os "CORS_ORIGINS" "http://localhost:5173";
    allowed_hosts = csv os "ALLOWED_HOSTS" "localhost,127.0.0.1,testserver";
    docs_enabled = read_bool os "ENABLE_API_DOCS" true;
    api_public_url = rstrip_slash (getenv_or os "API_PUBLIC_URL" "http://localhost:8000");
    router_credential_key = getenv_or os "ROUTER_CREDENTIAL_KEY" "";
    router_connect_timeout = router_connect_timeout;
    router_operation_timeout = router_operation_timeout;
    router_control_host = getenv_or os "ROUTER_CONTROL_HOST" "";
    router_control_cidr = getenv_or os "ROUTER_CONTROL_CIDR" "10.10.10.0/24";
    router_allowed_cidrs =
        csv os "ROUTER_ALLOWED_CIDRS" (getenv_or os "ROUTER_CONTROL_CIDR" "10.10.10.0/24");
    onboarding_token_minutes = onboarding_token_minutes;
    vpn_agent_socket = strip (getenv_or os "VPN_AGENT_SOCKET" "");
    vpn_agent_shared_secret = getenv_or os "VPN_AGENT_SHARED_SECRET" "";
    vpn_agent_timeout = vpn_agent_timeout;
    payment_session_minutes = payment_session_minutes;
    payment_status_token_minutes = payment_status_token_minutes;
    public_payment_limit = public_payment_limit;
    public_payment_window_minutes = public_payment_window_minutes;
    payment_provider = default_provider os;
    payment_providers = csv os "PAYMENT_PROVIDERS" (default_provider os);
    mpesa_base_url = rstrip_slash (getenv_or os "MPESA_BASE_URL" "https://sandbox.safaricom.co.ke");
    mpesa_consumer_key = getenv_or os "MPESA_CONSUMER_KEY" "";
    mpesa_consumer_secret = getenv_or os "MPESA_CONSUMER_SECRET" "";
    mpesa_business_short_code = getenv_or os "MPESA_BUSINESS_SHORT_CODE" "";
    mpesa_passkey = getenv_or os "MPESA_PASSKEY" "";
    mpesa_transaction_type = getenv_or os "MPESA_TRANSACTION_TYPE" "CustomerPayBillOnline";
    mpesa_verify_callback = read_bool os "MPESA_VERIFY_CALLBACK" true;
    kopokopo_base_url =
        rstrip_slash (getenv_or os "KOPOKOPO_BASE_URL" "https://sandbox.kopokopo.com");
    kopokopo_client_id = getenv_or os "KOPOKOPO_CLIENT_ID" "";
    kopokopo_client_secret = getenv_or os "KOPOKOPO_CLIENT_SECRET" "";
    kopokopo_api_key = getenv_or os "KOPOKOPO_API_KEY" "";
    kopokopo_till_number = getenv_or os "KOPOKOPO_TILL_NUMBER" "";
  })

-- `settings.validate()`
abbrev pub checked : Os → Option Settings → Loaded
checked os none = malformed
checked os (some s) = elim (validate os s) [ none ↦ loaded s | some message ↦ unsafe message ]

unfoldable pub get_settings : Os → Loaded
unfolding read_settings
get_settings os = checked os (read_settings os)

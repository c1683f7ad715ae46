-- ===== src/Tests/Sample.antt =====
-- One small installation: an operator, a router with its portal, a package, and a payment of it.
use mikrotik.Prelude.{String, true, false, none, some, [], ◌∷◌, List, str_eq, if◌then◌else◌}
use mikrotik.Models.{
  Db, AdminUser, Role, Router, ConnectionMode, OnboardingStatus, Package, ServiceType,
  PaymentSession, Status,
}
use mikrotik.World.{World, Env, Settings, rows, err, fault, unavailable}
use mikrotik.Agent.{PeerStore}

abbrev pub settings : Settings
settings = record {
  environment = "production";
  secret_key = "0123456789abcdef0123456789abcdef";
  access_token_expire_minutes = 30;
  cors_origins = "https://portal.example" ∷ [];
  allowed_hosts = "api.example" ∷ [];
  docs_enabled = false;
  api_public_url = "https://api.example";
  router_credential_key = "fernet-key";
  router_connect_timeout = 4000000;
  router_operation_timeout = 10000000;
  router_control_host = "control.example";
  router_control_cidr = "10.10.10.0/24";
  router_allowed_cidrs = "10.10.10.0/24" ∷ [];
  onboarding_token_minutes = 120;
  vpn_agent_socket = "";
  vpn_agent_shared_secret = "";
  vpn_agent_timeout = 3000000;
  payment_session_minutes = 15;
  payment_status_token_minutes = 60;
  public_payment_limit = 5;
  public_payment_window_minutes = 10;
  payment_provider = "mpesa";
  payment_providers = "mpesa" ∷ "kopokopo" ∷ [];
  mpesa_base_url = "https://mpesa.example";
  mpesa_consumer_key = "key";
  mpesa_consumer_secret = "secret";
  mpesa_business_short_code = "174379";
  mpesa_passkey = "passkey";
  mpesa_transaction_type = "CustomerPayBillOnline";
  mpesa_verify_callback = false;
  kopokopo_base_url = "https://kopokopo.example";
  kopokopo_client_id = "id";
  kopokopo_client_secret = "secret";
  kopokopo_api_key = "key";
  kopokopo_till_number = "K000000";
}

abbrev pub env : Env
env = record {
  settings = settings;
  sha256 = λ s. s;
  keyed_hash = λ s. s;
  json_dumps = λ fields. "{}";
  fernet_encrypt = λ s. s;
  fernet_decrypt = λ s. some s;
  uuid4 = λ n. "uuid";
  token_hex = λ n. "0123456789abcdef";
  token_urlsafe = λ n. "abcdefghijklmnop";
  getaddrinfo = λ host. some (10 ∷ []);
  allowed_networks = some (record { first = 0; last = 100 } ∷ []);
  respond = λ before call. rows [];
  verify_password = λ password hashed. str_eq password hashed;
  hash_password = λ password. password;
  read_ip = λ s. if str_eq s "10.0.0.5" then some 5 else none;
  show_ip = λ n. "10.0.0.5";
  http_send = λ n request. err (fault "unreachable");
  timestamp = λ n. "20260101000000";
  base64 = λ s. s;
  url_path = λ s. s;
  split_url = λ s. record {
    scheme = "https";
    hostname = "api.example";
    username = "";
    password = "";
    query = "";
    fragment = "";
    path = "";
  };
  url_quote = λ s. s;
  portal_public_url = "";
  agent = λ n action payload. unavailable;
}

abbrev pub operator : AdminUser
operator = record {
  id = 1;
  username = "wisp";
  email = none;
  hashed_password = "secret";
  role = Role.isp;
  is_active = true;
  token_version = 3;
  failed_login_count = 0;
  locked_until = none;
  last_login_at = none;
  created_at = 0;
}

abbrev pub router : Router
router = record {
  id = 4;
  uid = "router-4";
  name = "Roof";
  ip_address = "10.0.0.5";
  port = 8728;
  username = "api";
  password = "pw";
  owner_id = some 1;
  portal_slug = "roof";
  portal_enabled = true;
  payment_provider = "mpesa";
  connection_mode = ConnectionMode.direct;
  onboarding_status = OnboardingStatus.claimed;
  onboarding_download_hash = none;
  onboarding_script_encrypted = none;
  onboarding_token_hash = some "claim";
  onboarding_token_expires_at = some 5000;
  last_seen_at = none;
  last_error = none;
  routeros_version = none;
  created_at = 0;
  updated_at = 0;
}

abbrev pub pkg : Package
pkg = record {
  id = 6;
  uid = "package-6";
  name = "Day";
  description = none;
  price = 5000;
  service_type = ServiceType.hotspot;
  validity_days = 1;
  validity_minutes = 1440;
  router_profile = "default";
  rate_limit = none;
  is_active = true;
  router_id = 4;
  created_at = 0;
  updated_at = 0;
}

abbrev pub unpaid : PaymentSession
unpaid = record {
  id = 7;
  public_id = "pay-7";
  access_token_hash = "pending";
  idempotency_key = "key";
  request_fingerprint = "{}";
  provider = "mpesa";
  provider_request_id = some "ws_CO_7";
  provider_receipt = none;
  status = Status.pending;
  result_code = none;
  result_description = none;
  phone_number = "254712345678";
  phone_hash = "254712345678";
  amount = 5000;
  currency = "KES";
  service_type = ServiceType.hotspot;
  customer_reference = none;
  client_ip_hash = none;
  router_id = 4;
  package_id = 6;
  access_username = none;
  access_password_encrypted = none;
  credentials_expires_at = none;
  created_at = 900;
  updated_at = 900;
  expires_at = 1800;
}

abbrev pub activated : PaymentSession
activated = record unpaid {
  status = Status.provisioned;
  access_username = some "hs-1";
  access_password_encrypted = some "pw";
  credentials_expires_at = some 2000;
}

abbrev pub db_with : PaymentSession → Db
db_with row = record {
  admin_users = operator ∷ [];
  routers = router ∷ [];
  packages = pkg ∷ [];
  hotspot_users = [];
  ppp_users = [];
  payment_sessions = row ∷ [];
  payments = [];
  logs = [];
}

abbrev pub world_with : PaymentSession → World
world_with row = record {
  env = env;
  db = db_with row;
  session = db_with row;
  now = 1000;
  draws = 50;
  calls = [];
}

-- A payment that waits for its callback, and one whose access is active.
abbrev pub waiting : World
waiting = world_with unpaid

abbrev pub served : World
served = world_with activated

abbrev pub peer : String
peer = "router-01234567-89ab-cdef-0123-456789abcdef"

abbrev pub other_peer : String
other_peer = "router-11234567-89ab-cdef-0123-456789abcdef"

abbrev pub peer_password : String
peer_password = "abcdefghijklmnopqrstuvwx"

-- The tokens of the two lines of the file, and of the first one with a new password.
abbrev tokens : String → List String
tokens line =
    if str_eq line ""
    then []
    else if str_eq line "other"
    then other_peer ∷ "l2tp" ∷ "pw" ∷ "10.0.0.6" ∷ []
    else if str_eq line "old"
    then peer ∷ "l2tp" ∷ "pw" ∷ "10.0.0.5" ∷ []
    else peer ∷ "l2tp" ∷ peer_password ∷ "10.0.0.5" ∷ []

abbrev pub store : PeerStore
store = record {
  split = tokens;
  read_ip =
      λ s. if str_eq s "10.0.0.5" then some 5 else if str_eq s "10.0.0.6" then some 6 else none;
  show_ip = λ n. "10.0.0.7";
  server_name = "l2tp";
  first_ip = 5;
  last_ip = 9;
  lines = "old" ∷ "other" ∷ [];
  backups = [];
}

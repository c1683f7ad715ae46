-- ===== src/Settings.antt =====
-- settings.py: the configuration, read from the environment and checked before a start.
pub mod Load
pub mod Production
use Prim.Native.Char.{code}
use mikrotik.Prelude.{
  ℕ, String, Bool, true, false, not, ◌&&◌, ◌||◌, Option, none, some, List, [], ◌∷◌, ◌++◌, map,
  str_eq, truthy, join, mem_text, text_length, any, filter, or_default, ◌==◌, ltb, leb,
  if◌then◌else◌,
}

-- `Settings`; a timeout is a number of microseconds
pub record Settings : Type 0 where
  pub environment : String
  pub secret_key : String
  pub access_token_expire_minutes : ℕ
  pub cors_origins : List String
  pub allowed_hosts : List String
  pub docs_enabled : Bool
  pub api_public_url : String
  pub router_credential_key : String
  pub router_connect_timeout : ℕ
  pub router_operation_timeout : ℕ
  pub router_control_host : String
  pub router_control_cidr : String
  pub router_allowed_cidrs : List String
  pub onboarding_token_minutes : ℕ
  pub vpn_agent_socket : String
  pub vpn_agent_shared_secret : String
  pub vpn_agent_timeout : ℕ
  pub payment_session_minutes : ℕ
  pub payment_status_token_minutes : ℕ
  pub public_payment_limit : ℕ
  pub public_payment_window_minutes : ℕ
  pub payment_provider : String
  pub payment_providers : List String
  pub mpesa_base_url : String
  pub mpesa_consumer_key : String
  pub mpesa_consumer_secret : String
  pub mpesa_business_short_code : String
  pub mpesa_passkey : String
  pub mpesa_transaction_type : String
  pub mpesa_verify_callback : Bool
  pub kopokopo_base_url : String
  pub kopokopo_client_id : String
  pub kopokopo_client_secret : String
  pub kopokopo_api_key : String
  pub kopokopo_till_number : String

-- What the start takes from Python and the operating system: `os.getenv`, `str.lower`, `int` and `float`
-- of a text (`none` when they raise `ValueError`), the scheme of `urlparse`, and whether `Fernet` takes a key.
pub record Os : Type 0 where
  pub getenv : String → Option String
  pub lower : String → String
  pub read_int : String → Option ℕ
  pub read_float : String → Option ℕ
  pub url_scheme : String → String
  pub fernet_key : String → Bool

abbrev pub is_space : ℕ → Bool
is_space c = c == 32 || (leb 9 c && leb c 13) || (leb 28 c && leb c 31)

-- `s.lstrip()`
abbrev pub lstrip : String → String
lstrip String.[] = ""
lstrip (String.◌∷◌ c s) = let rest = lstrip s in if is_space (code c) then rest else String.◌∷◌ c s

-- the text without the characters at its end for which `p` holds
abbrev pub rstrip_if : (ℕ → Bool) → String → String
rstrip_if p String.[] = ""
rstrip_if p (String.◌∷◌ c s) =
    let rest = rstrip_if p s in if truthy rest || not (p (code c)) then String.◌∷◌ c rest else ""

-- `s.strip()`
unfoldable pub strip : String → String
strip s = lstrip (rstrip_if is_space s)

-- `s.rstrip("/")`
unfoldable pub rstrip_slash : String → String
rstrip_slash = rstrip_if (λ c. c == b'/')

-- one more character of the first item
abbrev pub extend_first : String → List String → List String
extend_first c [] = c ∷ []
extend_first c (item ∷ items) = join c item ∷ items

-- `s.split(",")`
unfoldable pub split_commas : String → List String
split_commas String.[] = "" ∷ []
split_commas (String.◌∷◌ c s) =
    let items = split_commas s in
    if code c == b',' then "" ∷ items else extend_first (String.◌∷◌ c "") items

-- `os.getenv(name, default)`
unfoldable pub getenv_or : Os → String → String → String
getenv_or os name default = or_default (os.getenv name) default

unfoldable pub csv : Os → String → String → List String
unfolding getenv_or strip rstrip_slash split_commas
csv os name default =
    map (λ item. rstrip_slash (strip item))
      (filter (λ item. truthy (strip item)) (split_commas (getenv_or os name default)))

-- `str(default)`
abbrev pub show_bool : Bool → String
show_bool true = "True"
show_bool false = "False"

unfoldable pub read_bool : Os → String → Bool → Bool
unfolding getenv_or strip
read_bool os name default =
    mem_text (os.lower (strip (getenv_or os name (show_bool default))))
      ("1" ∷ "true" ∷ "yes" ∷ "on" ∷ [])

unfoldable pub is_production : Settings → Bool
is_production s = mem_text s.environment ("production" ∷ "prod" ∷ [])

-- `if condition: errors.append(message)`
abbrev pub error_if : Bool → String → List String
error_if condition message = if condition then message ∷ [] else []

-- a required text, under its name
abbrev pub required : String → String → List String
required name value = error_if (not (truthy value)) (join name " is required")

abbrev pub not_https : Os → String → Bool
not_https os url = not (str_eq (os.url_scheme url) "https")

unfoldable pub credential_errors : Os → Settings → List String
credential_errors os s =
    error_if (ltb (text_length s.secret_key) 32 || str_eq s.secret_key "change-me-in-production")
      "SECRET_KEY must be a random value of at least 32 characters"
    ++ (if not (truthy s.router_credential_key)
        then "ROUTER_CREDENTIAL_KEY is required" ∷ []
        else error_if (not (os.fernet_key s.router_credential_key))
            "ROUTER_CREDENTIAL_KEY must be a valid Fernet key")

-- `not xs`
abbrev pub is_empty : List String → Bool
is_empty [] = true
is_empty (x ∷ xs) = false

unfoldable pub origin_errors : Os → Settings → List String
origin_errors os s =
    error_if (is_empty s.cors_origins || mem_text "*" s.cors_origins)
      "CORS_ORIGINS must contain explicit HTTPS origins"
    ++ error_if (is_empty s.allowed_hosts || mem_text "*" s.allowed_hosts)
        "ALLOWED_HOSTS must contain explicit hostnames"
    ++ error_if (any (not_https os) s.cors_origins) "CORS_ORIGINS must use HTTPS in production"
    ++ error_if (not_https os s.api_public_url) "API_PUBLIC_URL must use HTTPS in production"

unfoldable pub control_errors : Settings → List String
control_errors s =
    error_if (not (truthy s.router_control_host) || not (truthy s.router_control_cidr))
      "ROUTER_CONTROL_HOST and ROUTER_CONTROL_CIDR are required"
    ++ error_if (not (truthy s.vpn_agent_socket) || ltb (text_length s.vpn_agent_shared_secret) 32)
        "VPN_AGENT_SOCKET and a random VPN_AGENT_SHARED_SECRET of at least 32 characters are required"

-- `{"mpesa", "kopokopo"}`
abbrev pub known_providers : List String
known_providers = "mpesa" ∷ "kopokopo" ∷ []

unfoldable pub provider_errors : Settings → List String
provider_errors s =
    error_if
      (is_empty s.payment_providers
        || any (λ p. not (mem_text p known_providers)) s.payment_providers)
      "PAYMENT_PROVIDERS must contain only 'mpesa' and/or 'kopokopo'"
    ++ error_if (not (mem_text s.payment_provider s.payment_providers))
        "PAYMENT_PROVIDER must be included in PAYMENT_PROVIDERS"

unfoldable pub mpesa_errors : Os → Settings → List String
mpesa_errors os s =
    error_if (not s.mpesa_verify_callback) "MPESA_VERIFY_CALLBACK must be true in production"
    ++ error_if (not_https os s.mpesa_base_url) "MPESA_BASE_URL must use HTTPS in production"

unfoldable pub mpesa_required : Settings → List String
mpesa_required s =
    required "MPESA_CONSUMER_KEY" s.mpesa_consumer_key
    ++ required "MPESA_CONSUMER_SECRET" s.mpesa_consumer_secret
    ++ required "MPESA_BUSINESS_SHORT_CODE" s.mpesa_business_short_code
    ++ required "MPESA_PASSKEY" s.mpesa_passkey

unfoldable pub kopokopo_required : Settings → List String
kopokopo_required s =
    required "KOPOKOPO_CLIENT_ID" s.kopokopo_client_id
    ++ required "KOPOKOPO_CLIENT_SECRET" s.kopokopo_client_secret
    ++ required "KOPOKOPO_API_KEY" s.kopokopo_api_key
    ++ required "KOPOKOPO_TILL_NUMBER" s.kopokopo_till_number

-- `xs` if the provider is one of the settings'
abbrev pub for_provider : String → Settings → List String → List String
for_provider provider s xs = if mem_text provider s.payment_providers then xs else []

-- the lists, one behind the other
abbrev pub concat : List (List String) → List String
concat [] = []
concat (xs ∷ rest) = xs ++ concat rest

-- the errors of a production configuration, in groups
unfoldable pub error_groups : Os → Settings → List (List String)
error_groups os s =
    credential_errors os s
    ∷ origin_errors os s
    ∷ control_errors s
    ∷ provider_errors s
    ∷ for_provider "mpesa" s (mpesa_errors os s)
    ∷ for_provider "kopokopo" s (
        error_if (not_https os s.kopokopo_base_url)
          "KOPOKOPO_BASE_URL must use HTTPS in production")
    ∷ for_provider "mpesa" s (mpesa_required s)
    ∷ for_provider "kopokopo" s (kopokopo_required s)
    ∷ []

-- the list `errors` of `validate`, in its order
unfoldable pub validation_errors : Os → Settings → List String
unfolding is_production error_groups
validation_errors os s = if is_production s then concat (error_groups os s) else []

-- `"; ".join(errors)`
unfoldable pub join_errors : List String → String
join_errors [] = ""
join_errors (e ∷ []) = e
join_errors (e ∷ f ∷ errors) = join e (join "; " (join_errors (f ∷ errors)))

-- the message of the `RuntimeError`, if there is one
unfoldable pub validate : Os → Settings → Option String
unfolding join_errors
validate os s = elim (validation_errors os s) [
  | [] ↦ none
  | e ∷ errors ↦ some (join "Unsafe production configuration: " (join_errors (e ∷ errors)))
]

-- ===== src/World/Outside.antt =====
-- What the services take from outside src/: settings, cryptography, random values, the name
-- service and the routers. Nothing is assumed of these functions here.
use mikrotik.Prelude.{ℕ, String, Bool, Option, List}
use mikrotik.World.Errors.{Result}
pub use mikrotik.Settings.{Settings}

-- A word of the RouterOS API as a client sends and receives it: attributes by name.
abbrev pub Attributes : Type 0
Attributes = List (String × String)

-- The arguments of librouteros' `connect`, but for the timeout.
pub record Endpoint : Type 0 where
  pub host : String
  pub port : ℕ
  pub username : String
  pub password : String

pub data Command : Type 0 where
  connect : Command
  print : List String → Command
  add : List String → Attributes → Command
  update : List String → Attributes → Command
  remove : List String → String → Command
  monitor_traffic : String → Command

pub record Call : Type 0 where
  pub endpoint : Endpoint
  pub command : Command

pub data Reply : Type 0 where
  rows : List Attributes → Reply
  -- `OSError`, `socket.timeout`
  unreachable : Reply
  -- any other exception of the client
  refused : Reply

-- One of `settings.router_allowed_cidrs`: its first and last address, as numbers.
pub record Network : Type 0 where
  pub first : ℕ
  pub last : ℕ

pub record HttpRequest : Type 0 where
  pub url : String
  pub fields : Attributes

-- A JSON object's members as `str` shows them; `none` when the body is not a JSON object.
pub record HttpReply : Type 0 where
  pub status_code : ℕ
  pub location : Option String
  pub body : Option Attributes

-- The members of `urlsplit`, an absent one as the empty text.
pub record Url : Type 0 where
  pub scheme : String
  pub hostname : String
  pub username : String
  pub password : String
  pub query : String
  pub fragment : String
  pub path : String

-- What comes of one request to the VPN agent: its reply as the members of a JSON object, `result` those of
-- the object under that name.
pub data AgentAnswer : Type 0 where
  unavailable : AgentAnswer
  no_reply : AgentAnswer
  not_json : AgentAnswer
  answered : Bool → Attributes → Attributes → AgentAnswer

pub record Env : Type 0 where
  pub settings : Settings
  -- `hashlib.sha256(s).hexdigest()`
  pub sha256 : String → String
  -- `hmac.new(settings.secret_key, s, sha256).hexdigest()`
  pub keyed_hash : String → String
  -- `json.dumps(fields, sort_keys=True, separators=(",", ":"))`
  pub json_dumps : Attributes → String
  -- Fernet under the configured key; a token that is not its own raises
  pub fernet_encrypt : String → String
  pub fernet_decrypt : String → Option String
  -- `str(uuid.uuid4())`, `secrets.token_hex(8)` and `secrets.token_urlsafe(12)`, by draw
  pub uuid4 : ℕ → String
  pub token_hex : ℕ → String
  pub token_urlsafe : ℕ → String
  -- the addresses of a host; `none` when `getaddrinfo` fails
  pub getaddrinfo : String → Option (List ℕ)
  -- the parsed control networks; `none` when one is malformed
  pub allowed_networks : Option (List Network)
  -- the routers: what they answer may depend on every call made before
  pub respond : List Call → Call → Reply
  -- passlib's bcrypt context
  pub verify_password : String → String → Bool
  pub hash_password : String → String
  -- `ipaddress.ip_address` of a text, and its text
  pub read_ip : String → Option ℕ
  pub show_ip : ℕ → String
  -- a provider's answer to an HTTP request, by draw; an error is what `httpx` raises
  pub http_send : ℕ → HttpRequest → Result HttpReply
  -- `strftime("%Y%m%d%H%M%S")`, `base64.b64encode`, and the path of `urlparse`
  pub timestamp : ℕ → String
  pub base64 : String → String
  pub url_path : String → String
  -- `urlsplit`, and `quote` with `safe=""`
  pub split_url : String → Url
  pub url_quote : String → String
  -- `os.getenv("PORTAL_PUBLIC_URL", "")`
  pub portal_public_url : String
  -- the VPN agent behind its socket, by draw: an action and its payload
  pub agent : ℕ → String → Attributes → AgentAnswer

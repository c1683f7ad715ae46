-- ===== src/Agent/Requests.antt =====
-- vpn_agent/agent.py: `AgentHandler.handle`. A request's JSON is given as its members.
use mikrotik.Prelude.{ℕ, String, not, ◌||◌, Option, none, some, str_eq, ltb, ◌==◌, if◌then◌else◌}
use mikrotik.Agent.Store.{
  PeerStore, Outcome, done, rejected, invalid, Action, create, rotate, delete, Reply, mutate,
}
use mikrotik.Agent.Nonces.{Nonces, consume}

-- `canonical` is the sorted JSON of the envelope without its signature.
pub record Envelope : Type 0 where
  pub signature : String
  pub canonical : String
  pub timestamp : ℕ
  pub nonce : String
  pub action : String
  pub username : String
  pub password : Option String

pub record AgentServer : Type 0 where
  pub store : PeerStore
  pub nonces : Nonces
  -- the HMAC under the shared secret
  pub hmac : String → String

pub data AgentReply : Type 0 where
  health : AgentReply
  peer : Reply → AgentReply

-- `MAX_REQUEST_BYTES`
abbrev pub max_request_bytes : ℕ
max_request_bytes = 16384

unfoldable pub action_of : String → Option Action
action_of action =
    if str_eq action "create"
    then some create
    else if str_eq action "rotate"
    then some rotate
    else if str_eq action "delete"
    then some delete
    else none

peer_outcome : Outcome Reply → Outcome AgentReply
peer_outcome (done reply) = done (peer reply)
peer_outcome (rejected e) = rejected e

run_action : AgentServer → Envelope → Option Action → AgentServer × Outcome AgentReply
run_action server e none = (server, invalid "Unsupported action")
run_action server e (some action) =
    let (store, reply) = mutate server.store action e.username e.password in
    (record server { store = store }, peer_outcome reply)

perform : AgentServer → Envelope → AgentServer × Outcome AgentReply
unfolding run_action peer_outcome action_of
perform server e =
    if str_eq e.action "health"
    then (server, done health)
    else run_action server e (action_of e.action)

after_nonce :
    AgentServer → Envelope → Nonces × Outcome (Unit {0}) → AgentServer × Outcome AgentReply
unfolding perform
after_nonce server e (nonces, rejected x) = (record server { nonces = nonces }, rejected x)
after_nonce server e (nonces, done u) = perform (record server { nonces = nonces }) e

handle_envelope : ℕ → AgentServer → Option Envelope → AgentServer × Outcome AgentReply
unfolding after_nonce
handle_envelope now server none =
    (server, rejected (record { message = "Provisioning agent failed"; code = "internal_error" }))
handle_envelope now server (some e) =
    if not (str_eq e.signature (server.hmac e.canonical))
    then (server, rejected (record { message = "Authentication failed"; code = "unauthorized" }))
    else after_nonce server e (consume now server.nonces e.nonce e.timestamp)

-- One request of `size` bytes; `none` stands for a body that is not a JSON object.
unfoldable pub handle : ℕ → AgentServer → ℕ → Option Envelope → AgentServer × Outcome AgentReply
unfolding handle_envelope
handle now server size envelope =
    if size == 0 || ltb max_request_bytes size
    then (server, invalid "Invalid request size")
    else handle_envelope now server envelope

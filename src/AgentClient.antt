-- ===== src/AgentClient.antt =====
-- services/vpn_agent_service.py: requests to the VPN agent. Building the signed message and reading the
-- socket stand in the outside's `agent`.
use mikrotik.Prelude.{
  ℕ, ◌+◌, String, Bool, not, ◌&&◌, ◌||◌, [], ◌∷◌, opt_eq, truthy, or_text, if◌then◌else◌,
}
use mikrotik.World.{
  App, Env, Attributes, AgentAnswer, unavailable, no_reply, not_json, answered, http, pure, raise,
  gets, raise_if, modify, ◌>>=◌, ◌>>◌,
}
use mikrotik.Mikrotik.{get}

unfoldable pub vpn_agent_enabled : Env → Bool
vpn_agent_enabled env =
    truthy env.settings.vpn_agent_socket && truthy env.settings.vpn_agent_shared_secret

-- 409 for what the caller can do something about
unfoldable pub refusal_code : Attributes → ℕ
refusal_code reply =
    if opt_eq (get "code" reply) "duplicate" || opt_eq (get "code" reply) "pool_exhausted"
    then 409
    else 502

unfoldable pub read_answer : AgentAnswer → App Attributes
unfolding refusal_code
read_answer unavailable = raise (http 503 "VPN provisioning agent is unavailable")
read_answer no_reply = raise (http 502 "VPN provisioning agent returned an invalid response")
read_answer not_json = raise (http 502 "VPN provisioning agent returned invalid JSON")
read_answer (answered accepted reply result) =
    if accepted
    then pure result
    else raise (http (refusal_code reply) (or_text (get "error" reply) "VPN provisioning failed"))

-- one exchange on the socket
unfoldable pub ask_agent : String → Attributes → App AgentAnswer
ask_agent action payload = do
  answer ← gets (λ s. s.env.agent s.draws action payload)
  modify (λ s. record s { draws = s.draws + 1 })
  pure answer

unfoldable pub request : String → Attributes → App Attributes
unfolding ask_agent read_answer
request action payload = do
  enabled ← gets (λ s. vpn_agent_enabled s.env)
  raise_if (not enabled) (http 503 "VPN provisioning agent is not configured")
  answer ← ask_agent action payload
  read_answer answer

unfoldable pub provision_l2tp_peer : String → String → App String
unfolding request
provision_l2tp_peer username password = do
  result ← request "create" (("username", username) ∷ ("password", password) ∷ [])
  let address : String = or_text (get "ip_address" result) ""
  raise_if (not (truthy address)) (http 502 "VPN provisioning agent did not assign an address")
  pure address

-- `bool(result.get("deleted"))`: the agent writes a JSON Boolean.
unfoldable pub revoke_l2tp_peer : String → App Bool
unfolding request
revoke_l2tp_peer username = do
  result ← request "delete" (("username", username) ∷ [])
  pure (opt_eq (get "deleted" result) "True")

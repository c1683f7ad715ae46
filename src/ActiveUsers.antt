-- ===== src/ActiveUsers.antt =====
-- services/active_users_service.py: who is online on a router.
use mikrotik.Prelude.{ℕ, String, List, [], ◌∷◌, map, or_text}
use mikrotik.World.{
  App, Exn, http, integrity, fault, Attributes, Command, pure, raise, catch, ◌>>=◌,
}
use mikrotik.Mikrotik.{get, run_command, router_api_by_id}

pub record HotspotActive : Type 0 where
  pub user : String
  pub address : String
  pub mac_address : String
  pub uptime : String
  pub session_id : String
  pub login_by : String
  pub server : String

pub record PppActive : Type 0 where
  pub user : String
  pub address : String
  pub caller_id : String
  pub uptime : String
  pub session_id : String
  pub service : String
  pub encoding : String

-- `session.get(name, "")`
abbrev pub text_of : String → Attributes → String
text_of name session = or_text (get name session) ""

unfoldable pub hotspot_active_of : Attributes → HotspotActive
hotspot_active_of session = record {
  user = text_of "user" session;
  address = text_of "address" session;
  mac_address = text_of "mac-address" session;
  uptime = text_of "uptime" session;
  session_id = text_of ".id" session;
  login_by = text_of "login-by" session;
  server = text_of "server" session;
}

unfoldable pub ppp_active_of : Attributes → PppActive
ppp_active_of session = record {
  user = text_of "name" session;
  address = text_of "address" session;
  caller_id = text_of "caller-id" session;
  uptime = text_of "uptime" session;
  session_id = text_of ".id" session;
  service = text_of "service" session;
  encoding = text_of "encoding" session;
}

-- `except HTTPException: raise`, and 502 for anything else
unfoldable pub bad_gateway : {A : Type 0} → String → Exn → App A
bad_gateway detail (http code d) = raise (http code d)
bad_gateway detail integrity = raise (http 502 detail)
bad_gateway detail (fault message) = raise (http 502 detail)

unfoldable pub get_hotspot_active_users : ℕ → App (List HotspotActive)
unfolding hotspot_active_of bad_gateway
get_hotspot_active_users router_id =
    catch
      (do
        sessions ←
            router_api_by_id router_id
              λ endpoint. run_command endpoint (Command.print ("ip" ∷ "hotspot" ∷ "active" ∷ []))
        pure (map hotspot_active_of sessions))
      (bad_gateway "Router returned an invalid hotspot response")

unfoldable pub get_ppp_active_users : ℕ → App (List PppActive)
unfolding ppp_active_of bad_gateway
get_ppp_active_users router_id =
    catch
      (do
        sessions ←
            router_api_by_id router_id
              λ endpoint. run_command endpoint (Command.print ("ppp" ∷ "active" ∷ []))
        pure (map ppp_active_of sessions))
      (bad_gateway "Router returned an invalid PPPoE response")

-- ===== src/Mikrotik/Api.antt =====
-- services/mikrotik_service.py: connections, and calls on an open one. Closing the socket changes
-- nothing that the model has.
use mikrotik.Prelude.{
  ℕ, String, Bool, false, not, ◌&&◌, Option, none, some, List, [], ◌∷◌, str_eq, truthy, ◌==◌, leb,
  find, any, all, if◌then◌else◌,
}
use mikrotik.Models.{Router}
use mikrotik.Crud.{is_deleted}
use mikrotik.World.{
  App, Network, Endpoint, Command, Reply, Attributes, http, fault, pure, raise, gets, or_raise, ask,
  raise_if, catch, ◌>>=◌, ◌>>◌,
}

-- `decrypt_secret` of security.py
unfoldable pub decrypt_secret : String → App String
decrypt_secret value =
    if truthy value
    then (do
      plain ← gets (λ s. s.env.fernet_decrypt value)
      or_raise plain (fault "Stored credential is not encrypted with the active key"))
    else pure ""

-- `encrypt_secret` of security.py
unfoldable pub encrypt_secret : String → App String
encrypt_secret value = gets (λ s. if truthy value then s.env.fernet_encrypt value else "")

-- `address in network`
unfoldable pub in_network : ℕ → Network → Bool
in_network a n = leb n.first a && leb a n.last

-- `addresses and all(any(address in network for network in networks) for address in addresses)`
unfoldable pub inside_networks : List Network → List ℕ → Bool
unfolding in_network
inside_networks networks [] = false
inside_networks networks (a ∷ as') = all (λ x. any (in_network x) networks) (a ∷ as')

unfoldable pub validate_router_destination : String → App (Unit {0})
unfolding inside_networks
validate_router_destination host = do
  found ← gets (λ s. s.env.getaddrinfo host)
  addresses ← or_raise found (http 422 "Router address is invalid or cannot be resolved")
  allowed ← gets (λ s. s.env.allowed_networks)
  networks ← or_raise allowed (http 422 "Router address is invalid or cannot be resolved")
  raise_if (not (inside_networks networks addresses))
      (http 422 "Router address is outside the configured control networks")

-- Its own session sees what is committed.
unfoldable pub load_router : ℕ → App Router
load_router router_id = do
  found ← gets (λ s. find (λ row. row.id == router_id) s.db.routers)
  router ← or_raise found (http 404 "Router not found")
  raise_if (is_deleted router.onboarding_status) (http 404 "Router not found")
  pure router

-- the handlers around `connect`
unfoldable pub connected : Reply → App (Unit {0})
connected (Reply.rows r) = pure tt
connected Reply.unreachable = raise (http 503 "Router is unreachable")
connected Reply.refused = raise (http 502 "Router authentication failed")

-- `with router_api(router) as api: body(api)`
unfoldable pub router_api : {A : Type 0} → Router → (Endpoint → App A) → App A
unfolding validate_router_destination decrypt_secret connected
router_api router body = do
  raise_if (is_deleted router.onboarding_status) (http 404 "Router not found")
  validate_router_destination router.ip_address
  password ←
      catch (decrypt_secret router.password)
        (λ _. raise (http 503 "Router credential must be rotated"))
  let endpoint : Endpoint = record {
    host = router.ip_address;
    port = router.port;
    username = router.username;
    password = password;
  }
  reply ← ask (record { endpoint = endpoint; command = Command.connect })
  connected reply
  body endpoint

-- `with router_api(router_id) as api: body(api)`
unfoldable pub router_api_by_id : {A : Type 0} → ℕ → (Endpoint → App A) → App A
unfolding load_router router_api
router_api_by_id router_id body = do router ← load_router router_id; router_api router body

-- a reply's rows, or what the client raises
unfoldable pub answer : Reply → App (List Attributes)
answer (Reply.rows r) = pure r
answer Reply.unreachable = raise (fault "RouterOS connection lost")
answer Reply.refused = raise (fault "RouterOS refused the command")

unfoldable pub run_command : Endpoint → Command → App (List Attributes)
unfolding answer
run_command endpoint command = do
  reply ← ask (record { endpoint = endpoint; command = command })
  answer reply

-- `row.get(name)`
unfoldable pub get : String → Attributes → Option String
get name [] = none
get name ((k, v) ∷ row) = if str_eq k name then some v else get name row

-- `row[name]`
unfoldable pub get_item : String → Attributes → App String
unfolding get
get_item name row = or_raise (get name row) (fault "KeyError")

-- `row.get(name) == value`
unfoldable pub named : String → String → Attributes → Bool
unfolding get
named name value row = elim (get name row) [ none ↦ false | some v ↦ str_eq v value ]

-- `for row in rows: resource.remove(row[".id"])`
unfoldable pub remove_rows : Endpoint → List String → List Attributes → App (Unit {0})
unfolding run_command get_item
remove_rows endpoint path [] = pure tt
remove_rows endpoint path (row ∷ rows) = do
  id ← get_item ".id" row
  run_command endpoint (Command.remove path id)
  remove_rows endpoint path rows

-- ===== src/Mikrotik/Traffic.antt =====
-- services/mikrotik_service.py: the status of a router and the traffic of an interface.
use mikrotik.Prelude.{
  ℕ, String, Bool, false, not, ◌&&◌, ◌||◌, Option, none, some, List, [], ◌∷◌, lower_eq, truthy?,
  find,
}
use mikrotik.Models.{Router}
use mikrotik.World.{
  App, Endpoint, Command, Attributes, Exn, http, integrity, fault, Result, ok, err, pure, raise,
  catch, attempt, ◌>>=◌,
}
use mikrotik.Mikrotik.Api.{router_api, router_api_by_id, run_command, get, named}

-- `str(row.get(name, "")).lower() in {"true", "yes"}`
unfoldable pub is_on : String → Attributes → Bool
is_on name row = elim (get name row) [
  | none ↦ false
  | some v ↦ lower_eq v "true" || lower_eq v "yes"
]

-- `str(row.get(name, "")).lower() == value`
unfoldable pub lower_named : String → String → Attributes → Bool
lower_named name value row = elim (get name row) [ none ↦ false | some v ↦ lower_eq v value ]

unfoldable pub has_name : Attributes → Bool
has_name row = truthy? (get "name" row)

-- the first interface that each test accepts
abbrev pub first_named : (Attributes → Bool) → List Attributes → Option String
first_named p interfaces = elim (find p interfaces) [ none ↦ none | some row ↦ get "name" row ]

running_bridge : List Attributes → Option String
running_bridge =
    first_named (λ row. lower_named "type" "bridge" row && is_on "running" row && has_name row)

running_interface : List Attributes → Option String
running_interface =
    first_named
      λ row. is_on "running" row && not (lower_named "type" "loopback" row) && has_name row

abbrev or_else : Option String → Option String → Option String
or_else none b = b
or_else (some a) b = some a

-- `_traffic_interface` on the rows that the router lists
unfoldable pub choose_interface : List Attributes → Option String
unfolding running_bridge running_interface is_on lower_named has_name
choose_interface interfaces = elim (find (named "name" "bridge") interfaces) [
  | some row ↦ some "bridge"
  | none ↦
      or_else (running_bridge interfaces)
        (or_else (running_interface interfaces) (first_named has_name interfaces))
]

none_usable : List Attributes → App String
none_usable [] = raise (http 502 "Router returned no interfaces")
none_usable (row ∷ rows) = raise (http 502 "Router returned no usable interface")

chosen : List Attributes → Option String → App String
unfolding none_usable
chosen interfaces none = none_usable interfaces
chosen interfaces (some name) = pure name

unfoldable pub traffic_interface : Endpoint → App String
unfolding choose_interface chosen
traffic_interface endpoint = do
  interfaces ← run_command endpoint (Command.print ("interface" ∷ []))
  chosen interfaces (choose_interface interfaces)

-- `except HTTPException: raise` and `except Exception` around the monitor command
monitor_failed : Exn → App (List Attributes)
monitor_failed (http code detail) = raise (http code detail)
monitor_failed integrity = raise (http 502 "Router traffic monitoring failed")
monitor_failed (fault message) = raise (http 502 "Router traffic monitoring failed")

unfoldable pub monitor_traffic_once : Endpoint → String → App (List Attributes)
unfolding monitor_failed
monitor_traffic_once endpoint interface =
    catch (run_command endpoint (Command.monitor_traffic interface)) monitor_failed

pub record Traffic : Type 0 where
  pub interface : String
  pub rx_bits_per_second : Option String
  pub tx_bits_per_second : Option String

-- A missing count is 0 in the source, and `none` here.
traffic_of : String → List Attributes → App Traffic
traffic_of interface [] = raise (http 502 "Router returned no traffic data")
traffic_of interface (row ∷ rows) = pure (record {
  interface = interface;
  rx_bits_per_second = get "rx-bits-per-second" row;
  tx_bits_per_second = get "tx-bits-per-second" row;
})

unfoldable pub fetch_rt_rx_tx_data : ℕ → App Traffic
unfolding traffic_interface monitor_traffic_once traffic_of
fetch_rt_rx_tx_data router_id = do
  (interface, result) ← router_api_by_id router_id λ endpoint. do
    interface ← traffic_interface endpoint
    result ← monitor_traffic_once endpoint interface
    pure (interface, result)
  traffic_of interface result

pub data RouterStatus : Type 0 where
  online : Attributes → RouterStatus
  offline : String → RouterStatus

first_row : List Attributes → Attributes
first_row [] = []
first_row (row ∷ rows) = row

-- `except HTTPException as exc`: anything else is raised
status_of : Result (List Attributes) → App RouterStatus
unfolding first_row
status_of (ok rows) = pure (RouterStatus.online (first_row rows))
status_of (err (http code detail)) = pure (RouterStatus.offline detail)
status_of (err integrity) = raise integrity
status_of (err (fault message)) = raise (fault message)

unfoldable pub router_status : Router → App RouterStatus
unfolding status_of
router_status router = do
  outcome ← attempt (
      router_api router
        (λ endpoint. run_command endpoint (Command.print ("system" ∷ "resource" ∷ []))))
  status_of outcome

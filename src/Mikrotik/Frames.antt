-- ===== src/Mikrotik/Frames.antt =====
-- services/mikrotik_service.py: the operations on a router change nothing but what the router sees.
use mikrotik.Prelude.{ℕ, String, List, [], ◌∷◌, Bool, true, false, Option, some}
use mikrotik.Models.{Router}
use mikrotik.World.{World, App, Endpoint, Command, Reply, Attributes}
use mikrotik.World.Keeps.{Keeps, keeps_rules, Keeps-bind}
use mikrotik.World.Frames.{IsQuiet, quiet_rules}
use mikrotik.Mikrotik.{
  decrypt_secret, encrypt_secret, validate_router_destination, load_router, connected, router_api,
  router_api_by_id, answer, run_command, get_item, remove_rows, replace_user, upsert_router_user,
  provision_hotspot_access, provision_pppoe_access, set_disabled, set_hotspot_enabled,
  set_pppoe_enabled, cut_sessions, delete_hotspot_access, delete_pppoe_access, routeros_duration,
}

module _ {P : World → Type 0} (q : IsQuiet P) where
  pub decrypt_secret-Keeps : (value : String) → Keeps P (decrypt_secret value)
  unfolding decrypt_secret
  decrypt_secret-Keeps value = search keeps_rules

  pub encrypt_secret-Keeps : (value : String) → Keeps P (encrypt_secret value)
  unfolding encrypt_secret
  encrypt_secret-Keeps value = search keeps_rules

  validate-Keeps : (host : String) → Keeps P (validate_router_destination host)
  unfolding validate_router_destination
  validate-Keeps host = search keeps_rules depth 9

  load_router-Keeps : (id : ℕ) → Keeps P (load_router id)
  unfolding load_router
  load_router-Keeps id = search keeps_rules depth 9

  connected-Keeps : (r : Reply) → Keeps P (connected r)
  unfolding connected
  connected-Keeps (Reply.rows r) = search keeps_rules
  connected-Keeps _ = search keeps_rules

  router_api-Keeps :
      {A : Type 0} (router : Router) (body : Endpoint → App A)
      → ((e : Endpoint) → Keeps P (body e))
      → Keeps P (router_api router body)
  unfolding router_api
  router_api-Keeps router body k =
      search (keeps_rules, quiet_rules, q, validate-Keeps, decrypt_secret-Keeps, connected-Keeps, k)
        depth 14

  pub router_api_by_id-Keeps :
      {A : Type 0} (id : ℕ) (body : Endpoint → App A)
      → ((e : Endpoint) → Keeps P (body e))
      → Keeps P (router_api_by_id id body)
  unfolding router_api_by_id
  router_api_by_id-Keeps id body k = search (keeps_rules, load_router-Keeps, router_api-Keeps, k)

  answer-Keeps : (r : Reply) → Keeps P (answer r)
  unfolding answer
  answer-Keeps (Reply.rows r) = search keeps_rules
  answer-Keeps _ = search keeps_rules

  run_command-Keeps : (e : Endpoint) (c : Command) → Keeps P (run_command e c)
  unfolding run_command
  run_command-Keeps e c = search (keeps_rules, quiet_rules, q, answer-Keeps)

  get_item-Keeps : (name : String) (row : Attributes) → Keeps P (get_item name row)
  unfolding get_item
  get_item-Keeps name row = search keeps_rules

  remove_rows-Keeps :
      (e : Endpoint) (p : List String) (rows : List Attributes) → Keeps P (remove_rows e p rows)
  unfolding remove_rows
  remove_rows-Keeps e p [] = search keeps_rules
  remove_rows-Keeps e p (row ∷ rows) = Keeps-bind _ _ (get_item-Keeps ".id" row) λ id.
      Keeps-bind _ _ (run_command-Keeps e (Command.remove p id)) (λ _. remove_rows-Keeps e p rows)

  replace_user-Keeps :
      (e : Endpoint) (p : List String) (replace : Bool) (existing : List Attributes)
      (values : Attributes)
      → Keeps P (replace_user e p replace existing values)
  unfolding replace_user
  replace_user-Keeps e p replace [] values = search (keeps_rules, run_command-Keeps)
  replace_user-Keeps e p false (row ∷ rows) values = search keeps_rules
  replace_user-Keeps e p true (row ∷ rows) values =
      Keeps-bind _ _ (get_item-Keeps ".id" row) λ id. search (keeps_rules, run_command-Keeps)

  upsert-Keeps :
      (e : Endpoint) (p : List String) (u w pr : String) (d : Option String) (r n : Bool)
      → Keeps P (upsert_router_user e p u w pr d r n)
  unfolding upsert_router_user
  upsert-Keeps e p u w pr d r n =
      Keeps-bind _ _ (run_command-Keeps e _) λ rows. replace_user-Keeps e p r _ _

  pub provision_hotspot_access-Keeps :
      (id : ℕ) (u w pr : String) (m : ℕ) (r n : Bool)
      → Keeps P (provision_hotspot_access id u w pr m r n)
  unfolding provision_hotspot_access
  provision_hotspot_access-Keeps id u w pr m r n =
      router_api_by_id-Keeps id _ λ e. upsert-Keeps e _ u w pr (some (routeros_duration m)) r n

  pub provision_pppoe_access-Keeps :
      (id : ℕ) (u w pr : String) (r n : Bool) → Keeps P (provision_pppoe_access id u w pr r n)
  unfolding provision_pppoe_access
  provision_pppoe_access-Keeps id u w pr r n =
      router_api_by_id-Keeps id _
        λ e. Keeps-bind _ _ (run_command-Keeps e _) λ rows. replace_user-Keeps e _ r _ _

  set_disabled-Keeps :
      (e : Endpoint) (p : List String) (missing : String) (rows : List Attributes) (n : Bool)
      → Keeps P (set_disabled e p missing rows n)
  unfolding set_disabled
  set_disabled-Keeps e p missing [] n = search keeps_rules
  set_disabled-Keeps e p missing (row ∷ rows) n =
      Keeps-bind _ _ (get_item-Keeps ".id" row) λ id. search (keeps_rules, run_command-Keeps)

  pub set_hotspot_enabled-Keeps :
      (id : ℕ) (u : String) (n : Bool) → Keeps P (set_hotspot_enabled id u n)
  unfolding set_hotspot_enabled
  set_hotspot_enabled-Keeps id u n =
      router_api_by_id-Keeps id _
        λ e. Keeps-bind _ _ (run_command-Keeps e _) λ rows. set_disabled-Keeps e _ _ _ n

  cut_sessions-Keeps : (e : Endpoint) (u : String) (n : Bool) → Keeps P (cut_sessions e u n)
  unfolding cut_sessions
  cut_sessions-Keeps e u true = search keeps_rules
  cut_sessions-Keeps e u false =
      Keeps-bind _ _ (run_command-Keeps e _) λ rows. remove_rows-Keeps e _ _

  pub set_pppoe_enabled-Keeps :
      (id : ℕ) (u : String) (n : Bool) → Keeps P (set_pppoe_enabled id u n)
  unfolding set_pppoe_enabled
  set_pppoe_enabled-Keeps id u n = router_api_by_id-Keeps id _ λ e.
      Keeps-bind _ _ (run_command-Keeps e _)
        λ rows. Keeps-bind _ _ (set_disabled-Keeps e _ _ _ n) λ _. cut_sessions-Keeps e u n

  pub delete_hotspot_access-Keeps : (id : ℕ) (u : String) → Keeps P (delete_hotspot_access id u)
  unfolding delete_hotspot_access
  delete_hotspot_access-Keeps id u = router_api_by_id-Keeps id _ λ e.
      Keeps-bind _ _ (run_command-Keeps e _) λ rows.
        Keeps-bind _ _ (remove_rows-Keeps e _ _)
          λ _. Keeps-bind _ _ (run_command-Keeps e _) λ active. remove_rows-Keeps e _ _

  pub delete_pppoe_access-Keeps : (id : ℕ) (u : String) → Keeps P (delete_pppoe_access id u)
  unfolding delete_pppoe_access
  delete_pppoe_access-Keeps id u =
      router_api_by_id-Keeps id _
        λ e. Keeps-bind _ _ (run_command-Keeps e _) λ rows. remove_rows-Keeps e _ _

-- ===== src/Mikrotik/Portal.antt =====
-- services/mikrotik_service.py: the refresh of a HotSpot's login page.
use mikrotik.Prelude.{
  ℕ, String, Bool, not, ◌&&◌, ◌||◌, Option, none, some, List, [], ◌∷◌, str_eq, truthy, or_text,
  join, is_some, truthy?, lower_eq, length, filter, before_dash, contains, if◌then◌else◌,
}
use mikrotik.World.{
  App, Attributes, Endpoint, Command, http, pure, raise, raise_if, catch, ◌>>=◌, ◌>>◌,
}
use mikrotik.Settings.{rstrip_slash, is_empty, strip}
use mikrotik.Mikrotik.Api.{get, run_command, router_api_by_id}

unfoldable pub routeros_disabled : Option String → Bool
routeros_disabled value =
    let text = strip (if truthy? value then or_text value "" else "no") in
    lower_eq text "true" || lower_eq text "yes" || lower_eq text "1"

-- `{str(row.get("name")): row for row in rows if row.get("name")}.get(name)`: the last row of a name counts.
unfoldable pub last_named : String → List Attributes → Option Attributes
last_named name [] = none
last_named name (row ∷ rows) =
    let later = last_named name rows in
    elim later [
      | some found ↦ some found
      | none ↦
          if truthy (or_text (get "name" row) "") && str_eq (or_text (get "name" row) "") name
          then some row
          else none
    ]

-- `source_dir` of a profile
unfoldable pub source_directory : Attributes → String
source_directory profile =
    let directory = or_text (get "html-directory" profile) "" in
    let base = rstrip_slash (if truthy directory then directory else "hotspot") in
    let override = rstrip_slash (or_text (get "html-directory-override" profile) "") in
    if truthy override then override else base

-- Whether one of the three marks of a managed page is there.
unfoldable pub is_managed_page : List Attributes → String → String → Attributes → Bool
unfolding last_named
is_managed_page files legacy_suffix directory login =
    is_some (last_named (join directory "/login-pre-uzanet.txt") files)
    || contains legacy_suffix directory
    || contains "uzanet-managed-portal" (or_text (get "contents" login) "")

-- the page of a server that is to be replaced, by its id
unfoldable pub login_target :
    List Attributes → List Attributes → String → Attributes → Option String
unfolding source_directory is_managed_page
login_target profiles files legacy_suffix server =
    elim (last_named (or_text (get "profile" server) "") profiles) [
      | none ↦ none
      | some profile ↦ elim (last_named (join (source_directory profile) "/login.html") files) [
        | none ↦ none
        | some login ↦
            if truthy (or_text (get ".id" login) "")
              && is_managed_page files legacy_suffix (source_directory profile) login
            then some (or_text (get ".id" login) "")
            else none
      ]
    ]

-- A key of the dict `targets` stands where it was first set.
abbrev pub add_target : Option String → List String → List String
add_target none ids = ids
add_target (some id) ids = id ∷ filter (λ other. not (str_eq other id)) ids

unfoldable pub login_targets :
    List Attributes → List Attributes → String → List Attributes → List String
unfolding login_target
login_targets profiles files legacy_suffix [] = []
login_targets profiles files legacy_suffix (server ∷ servers) =
    add_target (login_target profiles files legacy_suffix server)
      (login_targets profiles files legacy_suffix servers)

unfoldable pub update_files : Endpoint → String → List String → App (Unit {0})
update_files endpoint html [] = pure tt
update_files endpoint html (id ∷ ids) = do
  run_command endpoint (Command.update ("file" ∷ []) ((".id", id) ∷ ("contents", html) ∷ []))
  update_files endpoint html ids

-- The result is the number of files and of profiles that were updated.
unfoldable pub refresh_login : Endpoint → String → String → App ℕ
unfolding login_targets update_files routeros_disabled
refresh_login endpoint html router_uid = do
  rows ← run_command endpoint (Command.print ("ip" ∷ "hotspot" ∷ []))
  let servers : List Attributes = filter (λ row. not (routeros_disabled (get "disabled" row))) rows
  raise_if (not (is_some (elim servers [ [] ↦ none | row ∷ rest ↦ some row ])))
      (http 409 "Router has no enabled HotSpot server")
  profiles ← run_command endpoint (Command.print ("ip" ∷ "hotspot" ∷ "profile" ∷ []))
  files ← run_command endpoint (Command.print ("file" ∷ []))
  let targets : List String =
      login_targets profiles files (join "-uzanet-" (before_dash router_uid)) servers
  raise_if (is_empty targets) (http 409 "No Uzanet-managed HotSpot login page was found")
  catch (update_files endpoint html targets)
      (λ _. raise (http 502 "Router rejected captive portal refresh"))
  pure (length targets)

unfoldable pub refresh_managed_hotspot_login : ℕ → String → String → App ℕ
unfolding refresh_login
refresh_managed_hotspot_login router_id html router_uid =
    router_api_by_id router_id (λ endpoint. refresh_login endpoint html router_uid)

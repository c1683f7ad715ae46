-- ===== src/Routers/Checks.antt =====
-- services/router_service.py: connectivity checks. The source runs the checks of several routers on
-- a pool of threads; the model runs them in the routers' order.
use mikrotik.Prelude.{
  ℕ, String, Bool, true, false, Option, none, some, List, [], ◌∷◌, take_text, truthy, truthy?,
  length, filter, not, ltb, ◌==◌, ◌||◌, ◌&&◌, codes, lower_codes, if◌then◌else◌,
}
use mikrotik.Models.{Router, AdminUser}
use mikrotik.World.{App, Attributes, pure, gets, commit, with_session, ◌>>=◌, ◌>>◌}
use mikrotik.Crud.{is_deleted, get_router_by_id, get_routers}
use mikrotik.Mikrotik.{RouterStatus, router_status, get}
use mikrotik.Routers.Access.{get_router_for_user, owner_filter, save_router}

-- `result.get("version") or row.routeros_version`
unfoldable pub seen_version : Attributes → Option String → Option String
seen_version info old = if truthy? (get "version" info) then get "version" info else old

unfoldable pub with_status : RouterStatus → ℕ → Router → Router
unfolding seen_version
with_status (RouterStatus.online info) now row = record row {
  last_seen_at = some now;
  last_error = none;
  routeros_version = seen_version info row.routeros_version;
  updated_at = now;
}
with_status (RouterStatus.offline detail) now row = record row {
  last_error = some (take_text 255 (if truthy detail then detail else "Router is offline"));
  updated_at = now;
}

unfoldable pub record_found : RouterStatus → Option Router → App (Unit {0})
record_found status none = pure tt
record_found status (some row) =
    if is_deleted row.onboarding_status
    then pure tt
    else do now ← gets (λ s. s.now); save_router (with_status status now row); commit

unfoldable pub record_status : ℕ → RouterStatus → App (Unit {0})
unfolding record_found with_status
record_status router_id status =
    with_session do row ← get_router_by_id router_id; record_found status row

-- the answer for one router
pub record Checked : Type 0 where
  pub router_uid : String
  pub name : String
  pub status : RouterStatus

abbrev pub checked : Router → RouterStatus → Checked
checked row status = record { router_uid = row.uid; name = row.name; status = status }

unfoldable pub check_router : String → AdminUser → App Checked
check_router router_uid current_user = do
  row ← get_router_for_user router_uid current_user
  status ← router_status row
  record_status row.id status
  pure (checked row status)

unfoldable pub check_each : List Router → App (List Checked)
check_each [] = pure []
check_each (row ∷ rows) = do
  status ← router_status row
  record_status row.id status
  rest ← check_each rows
  pure (checked row status ∷ rest)

abbrev pub is_online : RouterStatus → Bool
is_online (RouterStatus.online info) = true
is_online (RouterStatus.offline detail) = false

-- `a < b` of two texts, by their code points
abbrev pub precedes : List ℕ → List ℕ → Bool
precedes a [] = false
precedes [] (d ∷ b) = true
precedes (c ∷ a) (d ∷ b) = ltb c d || (c == d && precedes a b)

-- `item["name"].lower()`
abbrev pub sort_name : Checked → List ℕ
sort_name item = lower_codes (codes item.name)

-- The first of two items with the same name stays the first.
unfoldable pub insert_by_name : Checked → List Checked → List Checked
insert_by_name item [] = item ∷ []
insert_by_name item (next ∷ items) =
    let rest = insert_by_name item items in
    if precedes (sort_name next) (sort_name item) then next ∷ rest else item ∷ next ∷ items

-- `results.sort(...)`
unfoldable pub sort_by_name : List Checked → List Checked
unfolding insert_by_name
sort_by_name [] = []
sort_by_name (item ∷ items) = insert_by_name item (sort_by_name items)

pub record Overview : Type 0 where
  pub total : ℕ
  pub online : ℕ
  pub offline : ℕ
  pub routers : List Checked

unfoldable pub overview : List Checked → Overview
unfolding sort_by_name
overview results = record {
  total = length results;
  online = length (filter (λ r. is_online r.status) results);
  offline = length (filter (λ r. not (is_online r.status)) results);
  routers = sort_by_name results;
}

unfoldable pub check_all_routers : AdminUser → App Overview
unfolding check_each overview
check_all_routers current_user = do
  rows ← with_session (get_routers (owner_filter current_user) false)
  results ← check_each rows
  pure (overview results)

-- ===== src/Access/Rows.antt =====
-- services/access_service.py: names and passwords of new accounts, what a reply shows of a
-- customer, and the rows' writes.
use mikrotik.Prelude.{
  ℕ, String, Bool, true, false, not, ◌&&◌, Option, none, some, List, [], ◌∷◌, ◌++◌, str_eq,
  same_text, join, take_text, remove_dashes, ◌==◌, find, filter, if◌then◌else◌,
}
use mikrotik.Models.{HotspotUser, PppUser, Package, ServiceType}
use mikrotik.World.{App, http, pure, gets, draw, or_raise, raise_if, write, modify, ◌>>=◌, ◌>>◌}
use mikrotik.Crud.{get_package_by_uid, same_service}

-- "Package is not a {service_type} package"
unfoldable pub not_a_package : ServiceType → String
not_a_package ServiceType.hotspot = "Package is not a hotspot package"
not_a_package ServiceType.pppoe = "Package is not a pppoe package"

unfoldable pub package_for_router : String → ℕ → ServiceType → App Package
unfolding not_a_package
package_for_router package_uid router_id service_type = do
  found ← get_package_by_uid package_uid
  pkg ← or_raise found (http 404 "Package not found")
  raise_if (not (pkg.router_id == router_id)) (http 404 "Package not found")
  raise_if (not (same_service pkg.service_type service_type))
      (http 422 (not_a_package service_type))
  raise_if (not pkg.is_active) (http 409 "Package is inactive")
  pure pkg

unfoldable pub username_of : String → String → String
username_of prefix text = join prefix (take_text 12 (remove_dashes text))

-- `_new_username` of a payment session's identifier, which is never empty
unfoldable pub new_username : String → App String
unfolding username_of
new_username prefix = do token ← draw (λ env. env.token_hex); pure (username_of prefix token)

unfoldable pub new_password : App String
new_password = draw (λ env. env.token_urlsafe)

-- `body.field or make()`
unfoldable pub given_or : Option String → App String → App String
given_or none make = make
given_or (some String.[]) make = make
given_or (some (String.◌∷◌ c s)) make = pure (String.◌∷◌ c s)

-- `serialize_hotspot_user`
pub record HotspotView : Type 0 where
  pub uid : String
  pub username : String
  pub phone_number : String
  pub is_active : Bool
  pub expires_at : Option ℕ
  pub package_id : Option ℕ
  pub created_at : ℕ

unfoldable pub serialize_hotspot_user : HotspotUser → HotspotView
serialize_hotspot_user row = record {
  uid = row.uid;
  username = row.otp;
  phone_number = row.phone_number;
  is_active = row.is_active;
  expires_at = row.expires_at;
  package_id = row.package_id;
  created_at = row.created_at;
}

-- `serialize_pppoe_user`
pub record PppView : Type 0 where
  pub uid : String
  pub name : String
  pub email : Option String
  pub pppoe_username : String
  pub mobile_number : String
  pub location : Option String
  pub apartment : Option String
  pub profile : Option String
  pub is_active : Bool
  pub expires_on : Option ℕ
  pub package_id : Option ℕ
  pub created_at : ℕ
  pub updated_at : ℕ

unfoldable pub serialize_pppoe_user : PppUser → PppView
serialize_pppoe_user row = record {
  uid = row.uid;
  name = row.name;
  email = row.email;
  pppoe_username = row.pppoe_username;
  mobile_number = row.mobile_number;
  location = row.location;
  apartment = row.apartment;
  profile = row.profile;
  is_active = row.is_active;
  expires_on = row.expires_on;
  package_id = row.package_id;
  created_at = row.created_at;
  updated_at = row.updated_at;
}

unfoldable pub add_hotspot_user : HotspotUser → App (Unit {0})
add_hotspot_user row = write (λ d. record d { hotspot_users = d.hotspot_users ++ row ∷ [] })

unfoldable pub put_hotspot_user : HotspotUser → List HotspotUser → List HotspotUser
put_hotspot_user row [] = []
put_hotspot_user row (old ∷ rest) =
    (if old.id == row.id then row else old) ∷ put_hotspot_user row rest

-- the attributes of a loaded row are assigned
unfoldable pub save_hotspot_user : HotspotUser → App (Unit {0})
unfolding put_hotspot_user
save_hotspot_user row =
    write (λ d. record d { hotspot_users = put_hotspot_user row d.hotspot_users })

-- `db.delete(row)`
unfoldable pub delete_hotspot_user : HotspotUser → App (Unit {0})
delete_hotspot_user row =
    write (λ d. record d { hotspot_users = filter (λ x. not (x.id == row.id)) d.hotspot_users })

unfoldable pub add_ppp_user : PppUser → App (Unit {0})
add_ppp_user row = write (λ d. record d { ppp_users = d.ppp_users ++ row ∷ [] })

unfoldable pub same_number : Option ℕ → Option ℕ → Bool
same_number none none = true
same_number (some a) (some b) = a == b
same_number _ _ = false

unfoldable pub same_flag : Bool → Bool → Bool
same_flag true b = b
same_flag false b = not b

-- whether the columns that the services assign are as they were
unfoldable pub unchanged : PppUser → PppUser → Bool
unfolding same_number same_flag
unchanged a b =
    same_flag a.is_active b.is_active
    && same_text a.profile b.profile
    && same_number a.package_id b.package_id
    && same_number a.expires_on b.expires_on

-- `updated_at` of the written row
unfoldable pub touch : ℕ → PppUser → PppUser → PppUser
touch now old row = if unchanged old row then row else record row { updated_at = now }

unfoldable pub put_ppp_user : ℕ → PppUser → List PppUser → List PppUser
unfolding touch unchanged
put_ppp_user now row [] = []
put_ppp_user now row (old ∷ rest) =
    (if old.id == row.id then touch now old row else old) ∷ put_ppp_user now row rest

unfoldable pub save_ppp_user : PppUser → App (Unit {0})
unfolding put_ppp_user
save_ppp_user row = modify λ s.
    let users : List PppUser = put_ppp_user s.now row s.session.ppp_users in
    record s { session = record s.session { ppp_users = users } }

unfoldable pub delete_ppp_user : PppUser → App (Unit {0})
delete_ppp_user row =
    write (λ d. record d { ppp_users = filter (λ x. not (x.id == row.id)) d.ppp_users })

-- the query of a HotSpot user by its router and its name there
unfoldable pub hotspot_user_named : ℕ → String → App (Option HotspotUser)
hotspot_user_named router_id username =
    gets λ s.
      find (λ row. row.router_id == router_id && str_eq row.otp username) s.session.hotspot_users

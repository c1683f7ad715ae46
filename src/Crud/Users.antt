-- ===== src/Crud/Users.antt =====
-- database/crud.py: customers, payments, the log and the operators.
use mikrotik.Prelude.{
  ℕ, ◌+◌, ◌-◌, ◌*◌, ◌/◌, ◌%◌, String, Bool, true, false, ◌&&◌, Option, none, some, List, [], ◌∷◌,
  ◌++◌, str_eq, opt_eq, ◌==◌, leb, filter, find, order_by_desc, sum_of, if◌then◌else◌,
}
use mikrotik.Models.{AdminUser, Role, HotspotUser, PppUser, Payment, Log, ServiceType}
use mikrotik.World.{App, pure, gets, draw, modify, write, flush, commit, ◌>>=◌, ◌>>◌}

-- the value of an autoincrement column
unfoldable pub next_id : App ℕ
next_id = do id ← gets (λ s. s.draws); modify (λ s. record s { draws = s.draws + 1 }); pure id

-- the default of a `uid` column
unfoldable pub new_uid : App String
new_uid = draw (λ env. env.uuid4)

-- `query` when there is no router to filter by
abbrev pub in_router : Option ℕ → ℕ → Bool
in_router none id = true
in_router (some r) id = id == r

-- The dict of `calculate_expires_at`, in minutes.
unfoldable pub minutes_of_amount : ℕ → Option ℕ
minutes_of_amount amount =
    if amount == 1
    then some 60
    else if amount == 10
    then some 60
    else if amount == 50
    then some 1440
    else if amount == 150
    then some 4320
    else if amount == 300
    then some 10080
    else if amount == 1000
    then some 40320
    else none

unfoldable pub calculate_expires_at : ℕ → ℕ → Option ℕ
unfolding minutes_of_amount
calculate_expires_at created_at amount = elim (minutes_of_amount amount) [
  | none ↦ none
  | some m ↦ some (created_at + m * 60)
]

-- `amount` is in cents, and `int(amount)` drops them.
unfoldable pub create_hotspot_user : String → ℕ → String → ℕ → App HotspotUser
unfolding calculate_expires_at next_id new_uid
create_hotspot_user phone_number amount otp router_id = do
  now ← gets (λ s. s.now)
  id ← next_id
  uid ← new_uid
  let row : HotspotUser = record {
    id = id;
    uid = uid;
    phone_number = phone_number;
    amount = amount;
    otp = otp;
    password_encrypted = none;
    is_active = true;
    expires_at = calculate_expires_at now (amount / 100);
    package_id = none;
    router_id = router_id;
    created_at = now;
  }
  write (λ d. record d { hotspot_users = d.hotspot_users ++ row ∷ [] })
  flush
  pure row

unfoldable pub create_log :
    String → Option String → Option ℕ → String → Option String → App (Unit {0})
unfolding next_id
create_log description phone_number router_id level event_type = do
  now ← gets (λ s. s.now)
  id ← next_id
  let row : Log = record {
    id = id;
    timestamp = now;
    level = level;
    event_type = event_type;
    description = description;
    phone_number = phone_number;
    router_id = router_id;
  }
  write (λ d. record d { logs = d.logs ++ row ∷ [] })
  flush

unfoldable pub get_logs : Option ℕ → App (List Log)
get_logs router_id = gets λ s.
    order_by_desc (λ row. row.timestamp)
      (filter
        (λ row. elim router_id [
          | none ↦ true
          | some r ↦ elim row.router_id [ none ↦ false | some q ↦ q == r ]
        ])
        s.session.logs)

-- This one commits.
unfoldable pub create_admin_user : String → String → Role → Option String → App AdminUser
unfolding next_id
create_admin_user username hashed_password role email = do
  now ← gets (λ s. s.now)
  id ← next_id
  let row : AdminUser = record {
    id = id;
    username = username;
    email = email;
    hashed_password = hashed_password;
    role = role;
    is_active = true;
    token_version = 0;
    failed_login_count = 0;
    locked_until = none;
    last_login_at = none;
    created_at = now;
  }
  write (λ d. record d { admin_users = d.admin_users ++ row ∷ [] })
  commit
  pure row

unfoldable pub get_admin_user_by_username : String → App (Option AdminUser)
get_admin_user_by_username username =
    gets (λ s. find (λ row. str_eq row.username username) s.session.admin_users)

unfoldable pub get_admin_user_by_email : String → App (Option AdminUser)
get_admin_user_by_email email =
    gets (λ s. find (λ row. opt_eq row.email email) s.session.admin_users)

unfoldable pub get_admin_user_by_id : ℕ → App (Option AdminUser)
get_admin_user_by_id user_id = gets (λ s. find (λ row. row.id == user_id) s.session.admin_users)

unfoldable pub list_admin_users : App (List AdminUser)
list_admin_users = gets (λ s. order_by_desc (λ row. row.created_at) s.session.admin_users)

unfoldable pub get_hotspot_users : Option ℕ → App (List HotspotUser)
get_hotspot_users router_id = gets λ s.
    order_by_desc (λ row. row.created_at)
      (filter (λ row. in_router router_id row.router_id) s.session.hotspot_users)

unfoldable pub get_hotspot_user_by_uid : String → App (Option HotspotUser)
get_hotspot_user_by_uid uid = gets (λ s. find (λ row. str_eq row.uid uid) s.session.hotspot_users)

unfoldable pub get_ppp_users : Option ℕ → App (List PppUser)
get_ppp_users router_id = gets λ s.
    order_by_desc (λ row. row.created_at)
      (filter (λ row. in_router router_id row.router_id) s.session.ppp_users)

unfoldable pub get_ppp_user_by_uid : String → App (Option PppUser)
get_ppp_user_by_uid uid = gets (λ s. find (λ row. str_eq row.uid uid) s.session.ppp_users)

unfoldable pub get_ppp_user_by_username : ℕ → String → App (Option PppUser)
get_ppp_user_by_username router_id username = gets λ s.
    find (λ row. row.router_id == router_id && str_eq row.pppoe_username username)
      s.session.ppp_users

unfoldable pub get_payments : Option ℕ → App (List Payment)
get_payments router_id = gets λ s.
    order_by_desc (λ row. row.created_at)
      (filter (λ row. in_router router_id row.router_id) s.session.payments)

abbrev pub same_service : ServiceType → ServiceType → Bool
same_service ServiceType.hotspot ServiceType.hotspot = true
same_service ServiceType.pppoe ServiceType.pppoe = true
same_service _ _ = false

unfoldable pub get_payments_by_user_type : ServiceType → Option ℕ → App (List Payment)
get_payments_by_user_type user_type router_id = gets λ s.
    order_by_desc (λ row. row.created_at)
      (filter (λ row. same_service row.user_type user_type && in_router router_id row.router_id)
        s.session.payments)

-- midnight of the current day
abbrev pub start_of_day : ℕ → ℕ
start_of_day now = now - now % 86400

unfoldable pub get_payment_totals_for_today_by_user_type : ServiceType → Option ℕ → App ℕ
unfolding get_payments_by_user_type
get_payment_totals_for_today_by_user_type user_type router_id = do
  start ← gets (λ s. start_of_day s.now)
  rows ← get_payments_by_user_type user_type router_id
  pure (sum_of (λ row. row.amount) (filter (λ row. leb start row.created_at) rows))

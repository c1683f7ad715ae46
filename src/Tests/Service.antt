-- ===== src/Tests/Service.antt =====
-- The theorems on operators, routers, packages and jobs.
use mikrotik.Providers.Numbers.{is_national, normalize_kenyan_phone-spellings}
use mikrotik.Packages.Ownership.{update_package_sound}
use mikrotik.Crud.{is_deleted}
use mikrotik.Prelude.{
  ◌≡◌, ◌⊎◌, true, false, none, some, refl, find, str_eq, opt_eq, ◌&&◌, ◌*◌, ◌+◌, ◌≤◌, ◌<◌, [], ◌∷◌,
  ◌==◌, ℕ, map, truthy?, not, if◌then◌else◌, join, inr,
}
use mikrotik.Models.{AdminUser, Router, Role, HotspotUser, Status, Package}
use mikrotik.World.{World, err, http, ◌>>=◌, with_session, commit, flush, ok}
use mikrotik.Auth.{AccessToken, authenticate, logout, get_current_user}
use mikrotik.Auth.Lockout.{authenticate_sound}
use mikrotik.Auth.Revocation.{logout-revokes}
use mikrotik.Routers.{get_router_for_user}
use mikrotik.Routers.Tenancy.{get_router_for_user-exactly}
use mikrotik.Onboarding.{claim_onboarding, has_expired, expire_onboarding_downloads}
use mikrotik.Onboarding.Claims.{
  claim_onboarding_sound, expire_onboarding_downloads-scripts, kept_until,
}
use mikrotik.Maintenance.{expire_access}
use mikrotik.Maintenance.Counts.{expire_access-counts}
use mikrotik.Access.{cleanup_failed_prepared_hotspot_sessions}
use mikrotik.Access.CleanupTotals.{cleanup-counts}
use mikrotik.Mikrotik.{duration_parts, get}
use mikrotik.Mikrotik.Times.{duration_parts-total}
use mikrotik.Packages.{days_of, update_package, retirement}
use mikrotik.Packages.Days.{days_of-covers}
use mikrotik.Providers.{classify_query, amount_matches, normalize_kenyan_phone}
use mikrotik.Providers.Queries.{classify_query_sound}
use mikrotik.Providers.Amounts.{amount_matches-whole}
use mikrotik.Tests.Sample.{operator, router, pkg, unpaid, waiting, world_with}

abbrev token : AccessToken
token = record { sub = 1; role = Role.isp; ver = 3; iat = 1000; exp = 2800; expires_in = 1800 }

authenticate_sound_example :
    (user : AdminUser) × (find (λ row. str_eq row.username "wisp") waiting.db.admin_users
      ≡ some user)
    × (waiting.env.verify_password "secret" user.hashed_password ≡ true)
    × (user.is_active ≡ true)
    × (1 ≡ user.id)
    × (3 ≡ user.token_version)
unfolding authenticate ◌>>=◌ with_session commit flush mikrotik.Crud.get_admin_user_by_username
    mikrotik.Auth.save_admin mikrotik.World.write mikrotik.Models.constraints_hold
    mikrotik.Auth.issue_access_token
authenticate_sound_example = authenticate_sound "wisp" "secret" waiting token refl

abbrev locked : AdminUser
locked = record operator { locked_until = some 1500 }

abbrev locked_world : World
locked_world = record waiting { db = record waiting.db { admin_users = locked ∷ [] } }

logout-revokes_example :
    (get_current_user (some (1, 3)) (logout 1 waiting).1).0
    ≡ err (http 401 "Invalid or expired token")
unfolding logout ◌>>=◌ with_session commit flush mikrotik.Crud.get_admin_user_by_id
    mikrotik.Auth.save_admin mikrotik.World.write mikrotik.Models.constraints_hold
logout-revokes_example = logout-revokes operator waiting refl refl

get_router_for_user-exactly_example :
    ((get_router_for_user "router-4" operator waiting).0 ≡ ok router
      → (find (λ row. str_eq row.uid "router-4") waiting.db.routers ≡ some router)
        × (is_deleted router.onboarding_status ≡ false)
        × ((operator.role ≡ Role.superadmin) ⊎ (router.owner_id ≡ some 1)))
    × ((find (λ row. str_eq row.uid "router-4") waiting.db.routers ≡ some router)
          × (is_deleted router.onboarding_status ≡ false)
          × ((operator.role ≡ Role.superadmin) ⊎ (router.owner_id ≡ some 1))
        → (get_router_for_user "router-4" operator waiting).0 ≡ ok router)
get_router_for_user-exactly_example = get_router_for_user-exactly "router-4" operator waiting router

claim_onboarding_sound_example :
    (row : Router) × (find (λ r. opt_eq r.onboarding_token_hash "claim") waiting.db.routers
      ≡ some row)
    × (row.uid ≡ "router-4")
    × (has_expired row.onboarding_token_expires_at 1000 ≡ false)
unfolding claim_onboarding ◌>>=◌ with_session
claim_onboarding_sound_example =
    claim_onboarding_sound "claim" "10.0.0.5" none waiting "router-4" refl

abbrev scripted : World
scripted = record waiting {
  now = 9000;
  db = record waiting.db {
    routers = record router { onboarding_script_encrypted = some "x" } ∷ [];
  };
}

expire_onboarding_downloads-scripts_example :
    map (λ r. r.onboarding_script_encrypted) (expire_onboarding_downloads scripted).1.db.routers
    ≡ map
        (λ r. kept_until r.onboarding_token_expires_at 9000 r.onboarding_script_encrypted)
        scripted.db.routers
unfolding expire_onboarding_downloads ◌>>=◌ with_session mikrotik.World.write commit
    mikrotik.Models.constraints_hold
expire_onboarding_downloads-scripts_example = expire_onboarding_downloads-scripts scripted 1 refl

abbrev guest : HotspotUser
guest = record {
  id = 8;
  uid = "user-8";
  phone_number = "254712345678";
  amount = 50;
  otp = "hs-1";
  password_encrypted = some "pw";
  is_active = true;
  expires_at = some 900;
  package_id = some 6;
  router_id = 4;
  created_at = 0;
}

-- The router knows no such user: the job counts the account as failed.
abbrev overdue : World
overdue = record waiting { db = record waiting.db { hotspot_users = guest ∷ [] } }

expire_access-counts_example : 1 ≡ 0 + 1
unfolding expire_access ◌>>=◌ with_session commit flush mikrotik.Maintenance.disable_hotspot
    mikrotik.Maintenance.hotspot_due mikrotik.Mikrotik.set_hotspot_enabled
    mikrotik.Mikrotik.router_api_by_id mikrotik.Mikrotik.run_command
    mikrotik.Maintenance.disable_ppp mikrotik.Models.constraints_hold
expire_access-counts_example =
    expire_access-counts overdue (record { checked = 1; disabled = 0; failed = 1 }) refl

abbrev abandoned : World
abandoned = world_with (record unpaid {
  status = Status.failed;
  access_username = some "hs-1";
  access_password_encrypted = some "pw";
})

-- The account is gone: the job checks the session and cleans nothing.
cleanup-counts_example : 0 + 0 ≤ 1
unfolding cleanup_failed_prepared_hotspot_sessions ◌>>=◌ with_session mikrotik.Access.cleanup_all
    mikrotik.Access.prepared_failures mikrotik.Prelude.order_by mikrotik.Access.cleanup_one
    mikrotik.Crud.get_payment_session_by_public_id mikrotik.Access.cleanup_prepared_hotspot_session
cleanup-counts_example =
    cleanup-counts 50 abandoned (record { checked = 1; cleaned = 0; failed = 0 }) refl

duration_parts-total_example :
    let (days, hours, mins) = duration_parts 1505 in
    (days * 1440 + hours * 60 + mins ≡ 1505) × (hours < 24) × (mins < 60)
duration_parts-total_example = duration_parts-total 1505

days_of-covers_example :
    (1500 ≤ days_of 1500 * 1440)
    × (1 ≤ days_of 1500)
    × ((days : ℕ) → 1 ≤ days → 1500 ≤ days * 1440 → days_of 1500 ≤ days)
days_of-covers_example = days_of-covers 1500

classify_query_sound_example :
    (opt_eq
        (get "_query_status" (("ResultCode", "1032") ∷ ("_query_status", "pending") ∷ []))
        "succeeded"
      ≡ (200 == 200 && opt_eq (get "ResultCode" (("ResultCode", "1032") ∷ [])) "0"))
    × (opt_eq
          (get "_query_status" (("ResultCode", "1032") ∷ ("_query_status", "pending") ∷ []))
          "retryable_error"
        ≡ (not (200 == 200 && opt_eq (get "ResultCode" (("ResultCode", "1032") ∷ [])) "0")
            && truthy? (get "errorCode" (("ResultCode", "1032") ∷ []))))
    × (get "ResultCode" (("ResultCode", "1032") ∷ ("_query_status", "pending") ∷ [])
        ≡ get "ResultCode" (("ResultCode", "1032") ∷ []))
unfolding classify_query get
classify_query_sound_example =
    classify_query_sound 200 (("ResultCode", "1032") ∷ [])
      (("ResultCode", "1032") ∷ ("_query_status", "pending") ∷ []) "ResultCode" refl refl

amount_matches-whole_example :
    (amount_matches (some (record { negative = false; digits = 50; places = 0 })) 5000 ≡ true
      → 50 * 100 ≡ 5000)
    × (50 * 100 ≡ 5000
        → amount_matches (some (record { negative = false; digits = 50; places = 0 })) 5000 ≡ true)
amount_matches-whole_example = amount_matches-whole 50 5000

update_package_sound_example :
    (row : Package) × (find (λ p. str_eq p.uid "package-6") waiting.db.packages ≡ some row)
    × (row.router_id ≡ 4)
unfolding update_package ◌>>=◌ with_session mikrotik.Crud.get_package_by_uid
    mikrotik.Crud.create_log mikrotik.World.write flush mikrotik.Models.constraints_hold commit
update_package_sound_example =
    update_package_sound router "package-6" retirement waiting
      (record pkg { is_active = false; updated_at = 1000 }) refl

normalize_kenyan_phone-spellings_example : normalize_kenyan_phone "0712 345-678" ≡ (
    if is_national "712345678"
    then ok (join "254" "712345678")
    else err (http 422 "Enter a valid Kenyan phone number"))
unfolding mikrotik.Prelude.keep_digits
normalize_kenyan_phone-spellings_example =
    normalize_kenyan_phone-spellings "0712 345-678" "712345678" "0" (inr refl) refl

-- ===== src/Routes/Guarded.antt =====
-- mono.py: who gets through to a router.
use mikrotik.Prelude.{
  ℕ, String, ◌≡◌, ◌⊎◌, inl, inr, refl, true, false, Bool, not, some, find, str_eq, ◌==◌, Bool-cases,
  Option-cases, arith, ◌||◌,
}
use mikrotik.Models.{AdminUser, Router, Role}
use mikrotik.World.{World, http, Result, err, refresh, ◌>>=◌, with_session}
use mikrotik.Crud.{get_router_by_uid, get_admin_user_by_id, is_deleted}
use mikrotik.Auth.{get_current_user}
use mikrotik.Routers.{get_router_for_user, may_manage}
use mikrotik.Routers.Tenancy.{may_manage_sound}
use mikrotik.Routes.{RouterRoute, Answer, answer_route, is_bad_action, serve_router_route}

-- The token is that of an active account, at its present version, and the router is not deleted and
-- that account's own, unless it is a superadmin's.
pub record IsAllowed (user_id version : ℕ) (router_uid : String) (s : World) (user : AdminUser)
    (router : Router) : Type 0 where
  pub account : find (λ row. row.id == user_id) s.db.admin_users ≡ some user
  pub active : user.is_active ≡ true
  pub present : (user.token_version == version) ≡ true
  pub listed : find (λ row. str_eq row.uid router_uid) s.db.routers ≡ some router
  pub there : is_deleted router.onboarding_status ≡ false
  pub managed : (user.role ≡ Role.superadmin) ⊎ (router.owner_id ≡ some user.id)

-- Refused, with nothing written and no router asked.
abbrev pub IsRefused : World → Result Answer × World → Type 0
IsRefused s outcome =
    (code : ℕ) × (detail : String) × (outcome ≡ (err (http code detail), refresh s))

-- Let through to the service.
abbrev pub IsServed :
    (user_id version : ℕ) (router_uid : String) (in_time : Bool) (route : RouterRoute) (s : World)
    → Result Answer × World
    → Type 0
IsServed user_id version router_uid in_time route s outcome =
    (user : AdminUser) × (router : Router) × IsAllowed user_id version router_uid s user router
    × (outcome ≡ answer_route in_time route router (refresh s))

-- A request to a route of a router is either refused, with nothing written and no router asked, or it is
-- answered by the route's service, and then its token is that of an active account at its present
-- version, and the router is not deleted and is owned by that account, unless it is a superadmin's.
pub serve_router_route-Guarded :
    (user_id version : ℕ) (router_uid : String) (in_time : Bool) (route : RouterRoute) (s : World)
    → IsRefused s (serve_router_route (some (user_id, version)) router_uid in_time route s)
      ⊎ IsServed user_id version router_uid in_time route s
          (serve_router_route (some (user_id, version)) router_uid in_time route s)
unfolding serve_router_route get_current_user get_router_for_user get_router_by_uid
    get_admin_user_by_id ◌>>=◌ with_session
serve_router_route-Guarded user_id version router_uid in_time route s =
    elim (Option-cases (find (λ row. row.id == user_id) s.db.admin_users)) [
      | inl unknown ↦ inl (401, "Invalid or expired token", rw unknown refl)
      | inr (user, account) ↦
          elim (Bool-cases (not user.is_active || not (user.token_version == version))) [
            | inl stale ↦ inl (401, "Invalid or expired token", rw (account, stale) refl)
            | inr good ↦ elim (Bool-cases (is_bad_action route)) [
              | inl bad ↦ inl (404, "Action not found", rw (account, good, bad) refl)
              | inr fine ↦
                  elim (Option-cases (find (λ row. str_eq row.uid router_uid) s.db.routers)) [
                    | inl absent ↦
                        inl (404, "Router not found", rw (account, good, fine, absent) refl)
                    | inr (router, listed) ↦
                        elim (Bool-cases (is_deleted router.onboarding_status)) [
                          | inl gone ↦
                              inl (
                                404,
                                "Router not found",
                                rw (account, good, fine, listed, gone) refl,
                              )
                          | inr there ↦ elim (Bool-cases (may_manage user router)) [
                            | inr foreign ↦ inl (
                              404,
                              "Router not found",
                              rw (account, good, fine, listed, there, foreign) refl,
                            )
                            | inl managed ↦ inr (
                              user,
                              router,
                              record {
                                account = account;
                                active = ground arith;
                                present = ground arith;
                                listed = listed;
                                there = there;
                                managed = may_manage_sound user router managed;
                              },
                              rw (account, good, fine, listed, there, managed) refl,
                            )
                          ]
                        ]
                  ]
            ]
          ]
    ]

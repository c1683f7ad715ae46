-- ===== src/Maintenance.antt =====
-- services/maintenance_service.py: access that has run out.
pub mod Counts
use mikrotik.Prelude.{
  ℕ, ◌+◌, Bool, false, ◌&&◌, Option, none, some, List, [], ◌∷◌, leb, length, filter,
}
use mikrotik.Models.{HotspotUser, PppUser}
use mikrotik.World.{App, Result, ok, err, pure, gets, attempt, commit, with_session, ◌>>=◌, ◌>>◌}
use mikrotik.Mikrotik.{set_hotspot_enabled, set_pppoe_enabled}
use mikrotik.Access.{save_hotspot_user, save_ppp_user}

-- `expires <= now`, which no NULL meets
abbrev pub ran_out : Option ℕ → ℕ → Bool
ran_out none now = false
ran_out (some t) now = leb t now

-- the queries of the job
unfoldable pub hotspot_due : ℕ → HotspotUser → Bool
hotspot_due now row = row.is_active && ran_out row.expires_at now

unfoldable pub ppp_due : ℕ → PppUser → Bool
ppp_due now row = row.is_active && ran_out row.expires_on now

pub record ExpiryCounts : Type 0 where
  pub checked : ℕ
  pub disabled : ℕ
  pub failed : ℕ

unfoldable pub mark_hotspot : HotspotUser → Result (Unit {0}) → ExpiryCounts → App ExpiryCounts
mark_hotspot row (err e) c = pure (record c { failed = c.failed + 1 })
mark_hotspot row (ok u) c = do
  save_hotspot_user (record row { is_active = false })
  pure (record c { disabled = c.disabled + 1 })

unfoldable pub disable_hotspot : List HotspotUser → ExpiryCounts → App ExpiryCounts
unfolding mark_hotspot
disable_hotspot [] c = pure c
disable_hotspot (row ∷ rows) c = do
  r ← attempt (set_hotspot_enabled row.router_id row.otp false)
  c' ← mark_hotspot row r c
  disable_hotspot rows c'

unfoldable pub mark_ppp : PppUser → Result (Unit {0}) → ExpiryCounts → App ExpiryCounts
mark_ppp row (err e) c = pure (record c { failed = c.failed + 1 })
mark_ppp row (ok u) c = do
  save_ppp_user (record row { is_active = false })
  pure (record c { disabled = c.disabled + 1 })

unfoldable pub disable_ppp : List PppUser → ExpiryCounts → App ExpiryCounts
unfolding mark_ppp
disable_ppp [] c = pure c
disable_ppp (row ∷ rows) c = do
  r ← attempt (set_pppoe_enabled row.router_id row.pppoe_username false)
  c' ← mark_ppp row r c
  disable_ppp rows c'

unfoldable pub expire_access : App ExpiryCounts
expire_access = with_session do
  now ← gets (λ s. s.now)
  hotspot_rows ← gets (λ s. filter (hotspot_due now) s.session.hotspot_users)
  pppoe_rows ← gets (λ s. filter (ppp_due now) s.session.ppp_users)
  c ←
      disable_hotspot hotspot_rows
        (record { checked = length hotspot_rows + length pppoe_rows; disabled = 0; failed = 0 })
  c' ← disable_ppp pppoe_rows c
  commit
  pure c'

-- ===== src/Access/Cleanup.antt =====
-- services/access_service.py: accounts that were prepared for payments that failed.
use mikrotik.Prelude.{
  ℕ, ◌+◌, String, Bool, true, false, not, ◌&&◌, Option, none, some, List, [], ◌∷◌, str_eq, truthy?,
  or_text, is_some, ◌==◌, length, take, map, filter, find, order_by, if◌then◌else◌,
}
use mikrotik.Models.{HotspotUser, PaymentSession, Status}
use mikrotik.World.{
  App, Result, ok, err, pure, gets, attempt, flush, commit, with_session, ◌>>=◌, ◌>>◌,
}
use mikrotik.Crud.{get_payment_session_by_public_id, same_status, save_session}
use mikrotik.Mikrotik.{delete_hotspot_access}
use mikrotik.Access.Rows.{delete_hotspot_user}
use mikrotik.Access.Paid.{not_hotspot}

-- the account that was prepared and never paid for
unfoldable pub unpaid_user : ℕ → String → List HotspotUser → Option HotspotUser
unpaid_user router_id username =
    find
      λ row. row.router_id == router_id && str_eq row.otp username && not (is_some row.expires_at)

unfoldable pub drop_prepared : PaymentSession → String → Option HotspotUser → App Bool
drop_prepared row username none = pure false
drop_prepared row username (some user) = do
  delete_hotspot_access row.router_id username
  delete_hotspot_user user
  save_session (record row { access_password_encrypted = none; credentials_expires_at = none })
  flush
  pure true

unfoldable pub cleanup_prepared_hotspot_session : PaymentSession → App Bool
unfolding unpaid_user drop_prepared
cleanup_prepared_hotspot_session row =
    if not_hotspot row.service_type
    then pure false
    else if not (truthy? row.access_username)
    then pure false
    else do
      user ←
          gets
            λ s. unpaid_user row.router_id (or_text row.access_username "") s.session.hotspot_users
      drop_prepared row (or_text row.access_username "") user

-- one round of the loop, `True` if it committed
unfoldable pub clean_found : Option PaymentSession → App Bool
clean_found none = pure false
clean_found (some row) =
    if same_status row.status Status.failed
    then (do
      cleaned ← cleanup_prepared_hotspot_session row
      if cleaned then (do commit; pure true) else pure false)
    else pure false

unfoldable pub cleanup_one : String → App Bool
unfolding clean_found
cleanup_one public_id =
    with_session do row ← get_payment_session_by_public_id public_id; clean_found row

pub record CleanupCounts : Type 0 where
  pub checked : ℕ
  pub cleaned : ℕ
  pub failed : ℕ

unfoldable pub count_round : Result Bool → CleanupCounts → CleanupCounts
count_round (ok true) c = record c { cleaned = c.cleaned + 1 }
count_round (ok false) c = c
count_round (err e) c = record c { failed = c.failed + 1 }

unfoldable pub cleanup_all : List String → CleanupCounts → App CleanupCounts
unfolding count_round
cleanup_all [] c = pure c
cleanup_all (public_id ∷ rest) c = do
  r ← attempt (cleanup_one public_id)
  cleanup_all rest (count_round r c)

-- the sessions that the discovery query finds
unfoldable pub is_prepared_failure : PaymentSession → Bool
is_prepared_failure row =
    same_status row.status Status.failed
    && not (not_hotspot row.service_type)
    && is_some row.access_username
    && is_some row.access_password_encrypted

unfoldable pub prepared_failures : ℕ → List PaymentSession → List String
unfolding is_prepared_failure
prepared_failures limit rows =
    map (λ row. row.public_id)
      (take limit (order_by (λ row. row.updated_at) (filter is_prepared_failure rows)))

unfoldable pub cleanup_failed_prepared_hotspot_sessions : ℕ → App CleanupCounts
cleanup_failed_prepared_hotspot_sessions limit = do
  public_ids ← with_session (gets (λ s. prepared_failures limit s.session.payment_sessions))
  cleanup_all public_ids (record { checked = length public_ids; cleaned = 0; failed = 0 })

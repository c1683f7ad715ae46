-- ===== src/Routers/Deletion.antt =====
-- services/router_service.py: `delete_router`, which keeps the router's history.
use mikrotik.Prelude.{
  ℕ, String, Bool, true, false, not, ◌&&◌, Option, none, some, List, join, update_where, ◌==◌,
  if◌then◌else◌,
}
use mikrotik.Models.{
  AdminUser, Router, Package, PaymentSession, Status, ConnectionMode, OnboardingStatus,
}
use mikrotik.World.{
  App, Exn, http, integrity, fault, Result, ok, err, pure, raise, gets, or_raise, raise_if, write,
  catch, attempt, commit, rollback, with_session, ◌>>=◌, ◌>>◌,
}
use mikrotik.Crud.{create_log, is_deleted, get_router_by_uid}
use mikrotik.AgentClient.{vpn_agent_enabled, revoke_l2tp_peer}
use mikrotik.Routers.Access.{may_manage, save_router}

-- `Package.router_id == id, Package.is_active`
unfoldable pub retire_packages : ℕ → ℕ → List Package → List Package
retire_packages router_id now =
    update_where (λ p. p.router_id == router_id && p.is_active)
      (λ p. record p { is_active = false; updated_at = now })

-- the statuses of the two bulk updates
unfoldable pub is_unpaid : Status → Bool
is_unpaid Status.created = true
is_unpaid Status.pending = true
is_unpaid _ = false

unfoldable pub is_unfinished : Status → Bool
is_unfinished Status.provisioning = true
is_unfinished Status.provisioning_failed = true
is_unfinished _ = false

unfoldable pub stop_unpaid : ℕ → ℕ → List PaymentSession → List PaymentSession
unfolding is_unpaid
stop_unpaid router_id now =
    update_where (λ r. r.router_id == router_id && is_unpaid r.status)
      λ r. record r {
        status = Status.failed;
        result_description = some "Router was deleted before payment completion";
        updated_at = now;
      }

unfoldable pub review_unfinished : ℕ → ℕ → List PaymentSession → List PaymentSession
unfolding is_unfinished
review_unfinished router_id now =
    update_where (λ r. r.router_id == router_id && is_unfinished r.status)
      λ r. record r {
        status = Status.manual_review;
        result_description = some "Router was deleted after payment; review access or refund";
        updated_at = now;
      }

unfoldable pub deleted_router : Router → ℕ → Router
deleted_router row now = record row {
  portal_enabled = false;
  portal_slug = join "deleted-" row.uid;
  onboarding_status = OnboardingStatus.deleted;
  onboarding_download_hash = none;
  onboarding_script_encrypted = none;
  onboarding_token_hash = none;
  onboarding_token_expires_at = none;
  updated_at = now;
}

unfoldable pub is_l2tp : ConnectionMode → Bool
is_l2tp ConnectionMode.l2tp = true
is_l2tp ConnectionMode.direct = false

-- `should_revoke_peer`, and the router's id
unfoldable pub retire_router : Router → App (Option ℕ)
unfolding retire_packages stop_unpaid review_unfinished deleted_router is_l2tp
retire_router row = do
  now ← gets (λ s. s.now)
  agent ← gets (λ s. vpn_agent_enabled s.env)
  write (λ d. record d {
    packages = retire_packages row.id now d.packages;
    payment_sessions = review_unfinished row.id now (stop_unpaid row.id now d.payment_sessions);
  })
  save_router (deleted_router row now)
  create_log "Router deleted" none (some row.id) "info" (some "router.deleted")
  commit
  pure (if is_l2tp row.connection_mode && agent then some row.id else none)

unfoldable pub not_safe : Exn → App (Option ℕ)
not_safe integrity = do rollback; raise (http 409 "Router could not be deleted safely")
not_safe (http code detail) = raise (http code detail)
not_safe (fault message) = raise (fault message)

-- The transaction; its result is the router whose peer is to be revoked.
unfoldable pub delete_transaction : String → AdminUser → App (Option ℕ)
unfolding retire_router not_safe
delete_transaction router_uid current_user = with_session (
    catch
      (do
        found ← get_router_by_uid router_uid
        row ← or_raise found (http 404 "Router not found")
        raise_if (not (may_manage current_user row)) (http 404 "Router not found")
        if is_deleted row.onboarding_status then pure none else retire_router row)
      not_safe)

-- a peer that could not be revoked is logged
unfoldable pub note_revocation : ℕ → Result Bool → App (Unit {0})
note_revocation router_id (ok done) = pure tt
note_revocation router_id (err e) = with_session do
  create_log "Router deleted but L2TP peer cleanup failed" none (some router_id) "error"
      (some "router.delete.cleanup_failed")
  commit

-- `if should_revoke_peer`
unfoldable pub revoke_peer : String → Option ℕ → App (Unit {0})
unfolding note_revocation
revoke_peer router_uid none = pure tt
revoke_peer router_uid (some router_id) = do
  revoked ← attempt (revoke_l2tp_peer (join "router-" router_uid))
  note_revocation router_id revoked

unfoldable pub delete_router : String → AdminUser → App (Unit {0})
unfolding revoke_peer
delete_router router_uid current_user = do
  peer ← delete_transaction router_uid current_user
  revoke_peer router_uid peer

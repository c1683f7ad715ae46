-- ===== src/Payments/Start.antt =====
-- services/payment_service.py: a new payment. The source starts the provider's request and the
-- preparation at once and waits for both; the model runs one after the other.
use mikrotik.Prelude.{
  String, Bool, true, false, Option, none, some, truthy?, or_text, if◌then◌else◌,
}
use mikrotik.Models.{PaymentSession, Status}
use mikrotik.World.{
  App, Env, Exn, http, integrity, fault, Result, ok, err, pure, raise, gets, lift, or_raise, catch,
  attempt, commit, rollback, with_session, ◌>>=◌, ◌>>◌,
}
use mikrotik.Crud.{
  create_log, same_status, get_package_by_id, get_payment_session_by_public_id, save_session,
}
use mikrotik.Access.{not_hotspot, prepare_paid_hotspot_session}
use mikrotik.Providers.{ProviderInitiation, normalize_kenyan_phone, initiate_provider}
use mikrotik.Payments.Respond.{PublicResponse, public_response}
use mikrotik.Payments.Open.{
  PublicPaymentRequest, Opened, replayed, started, fingerprint, start_transaction,
}

unfoldable pub prepare_found : Option PaymentSession → App Bool
prepare_found none = pure false
prepare_found (some row) = if not_hotspot row.service_type then pure false else do
  found ← get_package_by_id row.package_id
  pkg ← or_raise found (http 404 "Package not found")
  prepare_paid_hotspot_session row pkg
  create_log "Hotspot access prepared" none (some row.router_id) "info"
      (some "payment.access_prepared")
  commit
  pure true

unfoldable pub prepare_payment_access : String → App Bool
unfolding prepare_found
prepare_payment_access public_id = with_session (
    catch (do row ← get_payment_session_by_public_id public_id; prepare_found row)
      (λ e. do rollback; raise e))

unfoldable pub log_failure_of : Option PaymentSession → App (Unit {0})
log_failure_of none = pure tt
log_failure_of (some row) = do
  create_log "Hotspot access preparation failed; will retry after payment confirmation" none
      (some row.router_id) "error" (some "payment.access_prepare_failed")
  commit

unfoldable pub log_prepare_failure : String → App (Unit {0})
unfolding log_failure_of
log_prepare_failure public_id =
    with_session do row ← get_payment_session_by_public_id public_id; log_failure_of row

unfoldable pub fail_found : Option PaymentSession → App (Unit {0})
fail_found none = pure tt
fail_found (some row) =
    if same_status row.status Status.created
    then (do
      save_session (record row {
        status = Status.failed;
        result_description = some "Payment provider is unavailable";
      })
      commit)
    else pure tt

-- `failed_db`, when the provider's request raised
unfoldable pub fail_initiation : String → App (Unit {0})
unfolding fail_found
fail_initiation public_id =
    with_session do row ← get_payment_session_by_public_id public_id; fail_found row

-- `update_db`, when the provider took the request
unfoldable pub record_initiation : String → ProviderInitiation → App PublicResponse
record_initiation public_id initiation = with_session do
  found ← get_payment_session_by_public_id public_id
  row ← or_raise found (fault "AttributeError")
  let row' : PaymentSession = record row {
    provider_request_id = some initiation.request_id;
    status = Status.pending;
    result_description = some initiation.customer_message;
  }
  save_session row'
  create_log "Payment initiated" none (some row'.router_id) "info" (some "payment.initiated")
  commit
  public_response row' true

-- `isinstance(initiation_result, HTTPException)`, or 502
abbrev pub initiation_error : Exn → Exn
initiation_error (http code detail) = http code detail
initiation_error integrity = http 502 "Payment provider is unavailable"
initiation_error (fault message) = http 502 "Payment provider is unavailable"

unfoldable pub finish_initiation : String → Result ProviderInitiation → App PublicResponse
finish_initiation public_id (ok initiation) = record_initiation public_id initiation
finish_initiation public_id (err e) = do fail_initiation public_id; raise (initiation_error e)

unfoldable pub note_preparation : String → Result Bool → App (Unit {0})
note_preparation public_id (ok prepared) = pure tt
note_preparation public_id (err e) = log_prepare_failure public_id

unfoldable pub continue_payment : Opened → App PublicResponse
unfolding finish_initiation note_preparation
continue_payment (replayed response) = pure response
continue_payment (started row) = do
  initiation ← attempt (initiate_provider row.provider row.phone_number row.amount row.public_id)
  preparation ← attempt (prepare_payment_access row.public_id)
  note_preparation row.public_id preparation
  finish_initiation row.public_id initiation

-- `private_hash(client_ip) if client_ip else None`
abbrev pub ip_hash : Env → Option String → Option String
ip_hash env client_ip =
    if truthy? client_ip then some (env.keyed_hash (or_text client_ip "")) else none

unfoldable pub create_public_payment :
    String → PublicPaymentRequest → String → Option String → App PublicResponse
unfolding continue_payment fingerprint
create_public_payment portal_slug body idempotency_key client_ip = do
  phone ← lift (normalize_kenyan_phone body.phone_number)
  env ← gets (λ s. s.env)
  opened ← start_transaction portal_slug (record {
    body = body;
    idempotency_key = idempotency_key;
    phone = phone;
    phone_hash = env.keyed_hash phone;
    client_ip_hash = ip_hash env client_ip;
    fingerprint = fingerprint env body.package_uid phone body.customer_reference;
  })
  continue_payment opened

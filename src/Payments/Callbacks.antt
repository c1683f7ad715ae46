-- ===== src/Payments/Callbacks.antt =====
-- services/payment_service.py: the providers' callbacks.
use mikrotik.Prelude.{
  String, Bool, true, false, not, ◌||◌, Option, none, some, str_eq, or_text, truthy?, take_text,
  if◌then◌else◌,
}
use mikrotik.Models.{PaymentSession, Status}
use mikrotik.World.{App, pure, gets, commit, with_session, ◌>>=◌, ◌>>◌}
use mikrotik.Crud.{
  get_payment_session_by_public_id, get_payment_session_by_provider_id, save_session,
}
use mikrotik.Mikrotik.{get}
use mikrotik.Providers.{MpesaValues, KopokopoValues, amount_matches, query_mpesa}
use mikrotik.Payments.Complete.{complete_payment, mark_manual_review}

-- `CALLBACK_IGNORED_STATUSES`
unfoldable pub ignores_callbacks : Status → Bool
ignores_callbacks Status.provisioned = true
ignores_callbacks Status.manual_review = true
ignores_callbacks _ = false

-- the row after a callback that reports a failure
abbrev pub mpesa_failed : MpesaValues → PaymentSession → PaymentSession
mpesa_failed values row = record row {
  status = Status.failed;
  result_code = some values.result_code;
  result_description = some (take_text 255 (or_text values.result_description "Payment failed"));
}

unfoldable pub mpesa_found : MpesaValues → Option PaymentSession → App (Option PaymentSession)
mpesa_found values none = pure none
mpesa_found values (some row) =
    if not (str_eq row.provider "mpesa") || ignores_callbacks row.status
    then pure none
    else if not (str_eq values.result_code "0")
    then (do save_session (mpesa_failed values row); commit; pure none)
    else pure (some row)

-- The first transaction: the session that a reported success is about, if it goes on.
unfoldable pub mpesa_transaction : MpesaValues → App (Option PaymentSession)
unfolding mpesa_found ignores_callbacks
mpesa_transaction values = with_session do
  row ← get_payment_session_by_provider_id (or_text values.provider_request_id "")
  mpesa_found values row

-- `get_settings().mpesa_verify_callback`, then `query_mpesa`
unfoldable pub callback_verified : String → App Bool
callback_verified request_id = do
  required ← gets (λ s. s.env.settings.mpesa_verify_callback)
  if required
      then (do
        fields ← query_mpesa request_id
        pure (str_eq (or_text (get "ResultCode" fields) "None") "0"))
      else pure true

unfoldable pub accept_mpesa : MpesaValues → PaymentSession → App (Unit {0})
unfolding callback_verified
accept_mpesa values row =
    if not (amount_matches values.amount row.amount) || not (str_eq values.phone row.phone_number)
    then mark_manual_review row.public_id "M-Pesa callback did not match the payment request"
    else do
      verified ← callback_verified (or_text values.provider_request_id "")
      if verified
          then complete_payment row.public_id values.receipt "0" values.result_description
          else mark_manual_review row.public_id "M-Pesa callback verification failed"

unfoldable pub mpesa_pending : MpesaValues → Option PaymentSession → App (Unit {0})
unfolding accept_mpesa
mpesa_pending values none = pure tt
mpesa_pending values (some row) = accept_mpesa values row

unfoldable pub process_mpesa_callback : MpesaValues → App (Unit {0})
unfolding mpesa_pending
process_mpesa_callback values =
    if not (truthy? values.provider_request_id)
    then pure tt
    else do row ← mpesa_transaction values; mpesa_pending values row

abbrev pub kopokopo_failed : KopokopoValues → PaymentSession → PaymentSession
kopokopo_failed values row = record row {
  status = Status.failed;
  result_description = some (take_text 255 (or_text values.result_description "Payment failed"));
}

unfoldable pub kopokopo_found : KopokopoValues → Option PaymentSession → App (Option PaymentSession)
kopokopo_found values none = pure none
kopokopo_found values (some row) =
    if not (str_eq row.provider "kopokopo") || ignores_callbacks row.status
    then pure none
    else if not (str_eq values.status "success")
    then (do save_session (kopokopo_failed values row); commit; pure none)
    else if not (amount_matches values.amount row.amount)
        || not (str_eq values.phone row.phone_number)
    then (do
      save_session (record row {
        status = Status.manual_review;
        result_description = some "Kopo Kopo callback did not match the payment request";
      })
      commit
      pure none)
    else pure (some row)

unfoldable pub kopokopo_transaction : KopokopoValues → App (Option PaymentSession)
unfolding kopokopo_found ignores_callbacks
kopokopo_transaction values = with_session do
  row ← get_payment_session_by_public_id (or_text values.public_id "")
  kopokopo_found values row

unfoldable pub kopokopo_pending : KopokopoValues → Option PaymentSession → App (Unit {0})
kopokopo_pending values none = pure tt
kopokopo_pending values (some row) =
    complete_payment row.public_id values.receipt "0" values.result_description

unfoldable pub process_kopokopo_callback : KopokopoValues → App (Unit {0})
unfolding kopokopo_pending
process_kopokopo_callback values =
    if not (truthy? values.public_id)
    then pure tt
    else do row ← kopokopo_transaction values; kopokopo_pending values row

-- ===== src/Payments/Complete.antt =====
-- services/payment_service.py: the transactions that end a payment. Each stands for one database
-- transaction; other requests may run between two of them.
use mikrotik.Prelude.{
  ℕ, String, Bool, true, false, not, Option, none, some, [], ◌∷◌, ◌++◌, str_eq, or_text, take_text,
  find, if◌then◌else◌,
}
use mikrotik.Models.{PaymentSession, Payment, Package, Status}
use mikrotik.World.{
  App, Exn, http, fault, pure, raise, gets, or_raise, raise_if, write, catch, commit, rollback,
  with_session, ◌>>=◌, ◌>>◌,
}
use mikrotik.Crud.{
  next_id, new_uid, create_log, same_status, get_payment_session_by_public_id, get_package_by_id,
  save_session,
}
use mikrotik.Access.{provision_paid_session, Provisioned}
use mikrotik.Payments.Respond.{PublicResponse, public_response}

-- the `Payment` of a session, and its insertion if there is none
unfoldable pub payment_of_invoice : String → App (Option Payment)
payment_of_invoice invoice = gets (λ s. find (λ row. str_eq row.invoice invoice) s.session.payments)

unfoldable pub add_payment : PaymentSession → Option String → ℕ → Option Payment → App (Unit {0})
add_payment row receipt user_id (some payment) = pure tt
add_payment row receipt user_id none = do
  id ← next_id
  uid ← new_uid
  now ← gets (λ s. s.now)
  let payment : Payment = record {
    id = id;
    uid = uid;
    invoice = row.public_id;
    provider = row.provider;
    provider_receipt = receipt;
    status = "completed";
    amount = row.amount;
    user_type = row.service_type;
    user_id = user_id;
    package_id = some row.package_id;
    router_id = row.router_id;
    created_at = now;
    updated_at = now;
  }
  write (λ d. record d { payments = d.payments ++ payment ∷ [] })

-- the row as `complete_payment` first assigns it
abbrev pub received : PaymentSession → Option String → String → Option String → PaymentSession
received row receipt result_code description = record row {
  status = Status.provisioning;
  provider_receipt = receipt;
  result_code = some result_code;
  result_description = some (take_text 255 (or_text description "Payment received"));
}

-- the `try` block, once the access is there
unfoldable pub record_paid : Option String → Provisioned → App (Unit {0})
unfolding payment_of_invoice add_payment
record_paid receipt (user_id, password, row) = do
  payment ← payment_of_invoice row.public_id
  add_payment row receipt user_id payment
  save_session (record row {
    status = Status.provisioned;
    result_description = some "Payment confirmed and access activated";
  })
  create_log "Payment provisioned" none (some row.router_id) "info" (some "payment.provisioned")
  commit

unfoldable pub activate : PaymentSession → Package → Option String → App (Unit {0})
activate row pkg receipt = do
  provisioned ← provision_paid_session row pkg
  record_paid receipt provisioned

unfoldable pub mark_activation_failed : Option PaymentSession → App (Unit {0})
mark_activation_failed none = pure tt
mark_activation_failed (some row) = do
  save_session (record row {
    status = Status.provisioning_failed;
    result_description = some "Payment received; access activation needs retry";
  })
  create_log "Payment provisioning failed" none (some row.router_id) "error"
      (some "payment.provisioning_failed")
  commit

-- `except Exception`
unfoldable pub activation_failed : String → Exn → App (Unit {0})
unfolding mark_activation_failed
activation_failed public_id e = do
  rollback
  row ← get_payment_session_by_public_id public_id
  mark_activation_failed row
  raise e

unfoldable pub complete_with : PaymentSession → Option String → Option Package → App (Unit {0})
complete_with row receipt none = do
  save_session (record row {
    status = Status.manual_review;
    result_description = some "Paid package no longer exists";
  })
  commit
complete_with row receipt (some pkg) =
    catch (activate row pkg receipt) (activation_failed row.public_id)

unfoldable pub complete_found :
    Option String → String → Option String → Option PaymentSession → App (Unit {0})
unfolding complete_with
complete_found receipt result_code description none = pure tt
complete_found receipt result_code description (some row) =
    if same_status row.status Status.provisioned then pure tt else do
      let row' : PaymentSession = received row receipt result_code description
      save_session row'
      pkg ← get_package_by_id row'.package_id
      complete_with row' receipt pkg

unfoldable pub complete_payment : String → Option String → String → Option String → App (Unit {0})
unfolding complete_found
complete_payment public_id receipt result_code description = do
  raise_if (not (str_eq result_code "0"))
      (fault "complete_payment requires a successful provider result code")
  with_session do
    row ← get_payment_session_by_public_id public_id
    complete_found receipt result_code description row

-- the statuses that an administrator may retry
unfoldable pub can_retry : Status → Bool
can_retry Status.provisioning = true
can_retry Status.provisioning_failed = true
can_retry Status.paid = true
can_retry _ = false

unfoldable pub retry_provisioning : String → App PublicResponse
unfolding can_retry
retry_provisioning public_id = do
  receipt ← with_session do
    found ← get_payment_session_by_public_id public_id
    row ← or_raise found (http 404 "Payment session not found")
    raise_if (not (can_retry row.status)) (http 409 "Payment is not waiting for provisioning")
    pure row.provider_receipt
  complete_payment public_id receipt "0" (some "Provisioning retried by administrator")
  with_session do
    found ← get_payment_session_by_public_id public_id
    row ← or_raise found (fault "AttributeError")
    public_response row false

unfoldable pub review_found : String → Option PaymentSession → App (Unit {0})
review_found reason none = pure tt
review_found reason (some row) = if same_status row.status Status.provisioned then pure tt else do
  save_session (record row {
    status = Status.manual_review;
    result_description = some (take_text 255 reason);
  })
  commit

unfoldable pub mark_manual_review : String → String → App (Unit {0})
unfolding review_found
mark_manual_review public_id reason =
    with_session do row ← get_payment_session_by_public_id public_id; review_found reason row

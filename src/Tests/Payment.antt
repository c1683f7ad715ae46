-- ===== src/Tests/Payment.antt =====
-- The theorems on payments, at a payment that waits and at one whose access is active.
use mikrotik.Access.Renewals.{renewed-extends}
use mikrotik.Payments.Totals.{reconcile-counts, after_expiry, expire_payment_sessions-statuses}
use mikrotik.Crud.{get_payment_session_by_public_id, save_session, create_log}
use mikrotik.Prelude.{◌≡◌, true, false, none, some, refl, or_text, [], ◌+◌, ◌*◌, ◌≤◌, ◌<◌, map}
use mikrotik.Models.{Status, PaymentSession, constraints_hold}
use mikrotik.World.{ok, refresh, ◌>>=◌, with_session, commit, flush, write}
use mikrotik.World.Keeps.{Yields}
use mikrotik.Crud.Puts.{Has}
use mikrotik.Providers.{MpesaValues, amount_matches, ProviderInitiation, KopokopoValues}
use mikrotik.Access.{not_hotspot, provision_paid_session, renewed}
use mikrotik.Access.Same.{Hands, provision_paid_session-Yields}
use mikrotik.Payments.{
  public_response, still_shown, complete_payment, process_mpesa_callback, record_initiation,
  Attempt, start_transaction, process_kopokopo_callback, reconcile_pending_payments, Reconciliation,
  expire_payment_sessions,
}
use mikrotik.Payments.Outcomes.{Outcome, complete_payment-Outcome}
use mikrotik.Payments.Guards.{credentials_guarded}
use mikrotik.Payments.Repeats.{complete_payment-once}
use mikrotik.Payments.Mismatch.{mpesa_mismatch-payments, kopokopo_mismatch-payments}
use mikrotik.Payments.Initiation.{record_initiation-pending}
use mikrotik.Payments.Opening.{IsGuarded, start_transaction-IsGuarded}
use mikrotik.Mikrotik.{decrypt_secret}
use mikrotik.Tests.Sample.{unpaid, activated, pkg, waiting, served, world_with}

complete_payment-Outcome_example :
    Outcome "pay-7" 7 waiting.db (complete_payment "pay-7" (some "R1") "0" none waiting)
complete_payment-Outcome_example =
    complete_payment-Outcome "pay-7" (some "R1") none unpaid pkg waiting refl refl refl

complete_payment-once_example :
    complete_payment "pay-7"
      (some "R2")
      "0"
      (some "again")
      (complete_payment "pay-7" (some "R1") "0" none waiting).1
    ≡ (ok tt, refresh (complete_payment "pay-7" (some "R1") "0" none waiting).1)
unfolding complete_payment mikrotik.World.◌>>=◌ mikrotik.World.with_session
    mikrotik.Crud.get_payment_session_by_public_id mikrotik.Crud.save_session
    mikrotik.Crud.get_package_by_id mikrotik.Payments.activate
    mikrotik.Access.provision_paid_session mikrotik.Access.new_password
    mikrotik.Mikrotik.encrypt_secret mikrotik.World.flush mikrotik.Models.constraints_hold
    mikrotik.Access.hotspot_user_named mikrotik.Mikrotik.provision_hotspot_access
    mikrotik.Mikrotik.router_api_by_id mikrotik.Mikrotik.run_command mikrotik.Crud.next_id
    mikrotik.Crud.new_uid mikrotik.Access.add_hotspot_user write mikrotik.Access.save_hotspot_user
    mikrotik.Payments.record_paid create_log commit
complete_payment-once_example =
    complete_payment-once "pay-7" (some "R1") none (some "R2") (some "again") unpaid pkg waiting
      refl refl refl

abbrev cheap : MpesaValues
cheap = record {
  provider_request_id = some "ws_CO_7";
  result_code = "0";
  result_description = none;
  amount = some (record { negative = false; digits = 1; places = 0 });
  receipt = some "R1";
  phone = "254712345678";
}

mpesa_mismatch-payments_example :
    (process_mpesa_callback cheap waiting).1.db.payments ≡ waiting.db.payments
unfolding amount_matches or_text
mpesa_mismatch-payments_example = mpesa_mismatch-payments cheap unpaid waiting refl refl

abbrev answer : ProviderInitiation
answer = record { request_id = "ws_CO_8"; customer_message = "Enter your PIN" }

record_initiation-pending_example :
    Has "pay-7" 7 Status.pending (record_initiation "pay-7" answer served).1.db.payment_sessions
unfolding record_initiation ◌>>=◌ with_session commit flush get_payment_session_by_public_id
    save_session create_log write constraints_hold public_response
record_initiation-pending_example =
    record_initiation-pending "pay-7" answer activated served _ refl refl

credentials_guarded_example :
    (activated.status ≡ Status.provisioned)
    × (not_hotspot activated.service_type ≡ false)
    × (still_shown activated.credentials_expires_at 1000 ≡ true)
unfolding public_response ◌>>=◌ decrypt_secret or_text
credentials_guarded_example = credentials_guarded activated false served _ refl refl

abbrev request : Attempt
request = record {
  body = record {
    package_uid = "package-6";
    phone_number = "0712345678";
    customer_reference = none;
  };
  idempotency_key = "key-2";
  phone = "254712345678";
  phone_hash = "254712345678";
  client_ip_hash = none;
  fingerprint = "{}";
}

abbrev opened : PaymentSession
opened = record unpaid {
  id = 50;
  public_id = "uuid";
  access_token_hash = "payment:uuid";
  idempotency_key = "key-2";
  provider_request_id = none;
  status = Status.created;
  created_at = 1000;
  updated_at = 1000;
  expires_at = 1900;
}

start_transaction-IsGuarded_example : IsGuarded "roof" request waiting.db opened
unfolding start_transaction ◌>>=◌ with_session commit flush mikrotik.Payments.open_portal
    mikrotik.Crud.get_router_by_portal_slug mikrotik.Crud.get_package_by_uid
    mikrotik.Crud.get_payment_session_by_idempotency mikrotik.Crud.next_id mikrotik.Crud.new_uid
    write constraints_hold save_session mikrotik.Crud.touch mikrotik.Crud.unchanged
start_transaction-IsGuarded_example = start_transaction-IsGuarded "roof" request waiting opened refl

provision_paid_session-Yields_example : Yields (Hands unpaid) (provision_paid_session unpaid pkg)
provision_paid_session-Yields_example = provision_paid_session-Yields unpaid pkg

abbrev paybill : PaymentSession
paybill = record unpaid { provider = "kopokopo" }

abbrev paid_too_little : KopokopoValues
paid_too_little = record {
  public_id = some "pay-7";
  status = "success";
  result_description = none;
  amount = some (record { negative = false; digits = 1; places = 0 });
  receipt = some "R1";
  phone = "254712345678";
}

kopokopo_mismatch-payments_example :
    (process_kopokopo_callback paid_too_little (world_with paybill)).1.db.payments ≡ []
unfolding amount_matches or_text
kopokopo_mismatch-payments_example =
    kopokopo_mismatch-payments paid_too_little paybill (world_with paybill) refl refl

-- The provider cannot be reached: the session stays pending.
abbrev tally : Reconciliation
tally = record { checked = 1; provisioned = 0; failed = 0; pending = 1 }

reconcile-counts_example : (tally.checked ≡ tally.provisioned + tally.pending) × (tally.failed ≡ 0)
unfolding reconcile_pending_payments ◌>>=◌ with_session mikrotik.Payments.reconcile_all
    mikrotik.Prelude.order_by mikrotik.Providers.query_mpesa
reconcile-counts_example = reconcile-counts 25 waiting tally refl

expire_payment_sessions-statuses_example :
    map
      (λ r. r.status)
      (expire_payment_sessions (record waiting { now = 9000 })).1.db.payment_sessions
    ≡ map (after_expiry 9000) waiting.db.payment_sessions
unfolding expire_payment_sessions ◌>>=◌ with_session write commit constraints_hold
expire_payment_sessions-statuses_example =
    expire_payment_sessions-statuses (record waiting { now = 9000 }) 1 refl

renewed-extends_example :
    (1500 ≤ renewed (some 1500) 1000 60)
    × (1000 < 1500 → renewed (some 1500) 1000 60 ≡ 1500 + 60 * 60)
    × (1500 ≤ 1000 → renewed (some 1500) 1000 60 ≡ 1000 + 60 * 60)
renewed-extends_example = renewed-extends 1500 1000 60

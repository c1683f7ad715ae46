-- ===== src/Payments/Reports.antt =====
-- services/payment_service.py: lists and totals for an operator.
use mikrotik.Prelude.{ℕ, String, Bool, Option, some, List, map, sum_of}
use mikrotik.Models.{PaymentSession, Payment, Router, ServiceType, Status}
use mikrotik.World.{App, pure, with_session, ◌>>=◌}
use mikrotik.Crud.{
  get_payments, get_payments_by_user_type, get_payment_sessions,
  get_payment_totals_for_today_by_user_type,
}
use mikrotik.Providers.{mask_phone}
use mikrotik.Payments.Complete.{can_retry}

pub record PaymentView : Type 0 where
  pub uid : String
  pub invoice : String
  pub provider : String
  pub provider_receipt : Option String
  pub status : String
  pub amount : ℕ
  pub user_type : ServiceType
  pub user_id : ℕ
  pub package_id : Option ℕ
  pub created_at : ℕ

unfoldable pub serialize_payment : Payment → PaymentView
serialize_payment row = record {
  uid = row.uid;
  invoice = row.invoice;
  provider = row.provider;
  provider_receipt = row.provider_receipt;
  status = row.status;
  amount = row.amount;
  user_type = row.user_type;
  user_id = row.user_id;
  package_id = row.package_id;
  created_at = row.created_at;
}

unfoldable pub list_payments : Router → App (List PaymentView)
unfolding serialize_payment
list_payments router =
    with_session do rows ← get_payments (some router.id); pure (map serialize_payment rows)

pub record SessionView : Type 0 where
  pub payment_id : String
  pub provider : String
  pub provider_receipt : Option String
  pub status : Status
  pub amount : ℕ
  pub currency : String
  pub service_type : ServiceType
  pub customer_reference : Option String
  pub phone_number : String
  pub message : Option String
  pub can_retry : Bool
  pub created_at : ℕ
  pub updated_at : ℕ
  pub expires_at : ℕ

unfoldable pub serialize_session : PaymentSession → SessionView
serialize_session row = record {
  payment_id = row.public_id;
  provider = row.provider;
  provider_receipt = row.provider_receipt;
  status = row.status;
  amount = row.amount;
  currency = row.currency;
  service_type = row.service_type;
  customer_reference = row.customer_reference;
  phone_number = mask_phone row.phone_number;
  message = row.result_description;
  can_retry = can_retry row.status;
  created_at = row.created_at;
  updated_at = row.updated_at;
  expires_at = row.expires_at;
}

unfoldable pub list_payment_sessions : Router → App (List SessionView)
unfolding serialize_session
list_payment_sessions router =
    with_session do rows ← get_payment_sessions router.id 200; pure (map serialize_session rows)

unfoldable pub get_total_payment_by_user_type : ServiceType → Option ℕ → App ℕ
get_total_payment_by_user_type user_type router_id =
    with_session do
      rows ← get_payments_by_user_type user_type router_id
      pure (sum_of (λ row. row.amount) rows)

unfoldable pub get_total_payment_for_today_by_user_type : ServiceType → Option ℕ → App ℕ
get_total_payment_for_today_by_user_type user_type router_id =
    with_session (get_payment_totals_for_today_by_user_type user_type router_id)

-- ===== src/Models/Billing.antt =====
-- database/models.py: payment sessions, payments and the audit log.
use mikrotik.Prelude.{ℕ, String, Option}
use mikrotik.Models.Access.{ServiceType}

-- the values of `PaymentSession.status`
pub data Status : Type 0 where
  created pending paid provisioning provisioned provisioning_failed manual_review failed : Status

pub record PaymentSession : Type 0 where
  pub id : ℕ
  pub public_id : String
  pub access_token_hash : String
  pub idempotency_key : String
  pub request_fingerprint : String
  pub provider : String
  pub provider_request_id : Option String
  pub provider_receipt : Option String
  pub status : Status
  pub result_code : Option String
  pub result_description : Option String
  pub phone_number : String
  pub phone_hash : String
  pub amount : ℕ
  pub currency : String
  pub service_type : ServiceType
  pub customer_reference : Option String
  pub client_ip_hash : Option String
  pub router_id : ℕ
  pub package_id : ℕ
  pub access_username : Option String
  pub access_password_encrypted : Option String
  pub credentials_expires_at : Option ℕ
  pub created_at : ℕ
  pub updated_at : ℕ
  pub expires_at : ℕ

pub record Payment : Type 0 where
  pub id : ℕ
  pub uid : String
  pub invoice : String
  pub provider : String
  pub provider_receipt : Option String
  pub status : String
  pub amount : ℕ
  pub user_type : ServiceType
  pub user_id : ℕ
  pub package_id : Option ℕ
  pub router_id : ℕ
  pub created_at : ℕ
  pub updated_at : ℕ

pub record Log : Type 0 where
  pub id : ℕ
  pub timestamp : ℕ
  pub level : String
  pub event_type : Option String
  pub description : String
  pub phone_number : Option String
  pub router_id : Option ℕ

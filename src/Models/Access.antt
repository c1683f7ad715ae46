-- ===== src/Models/Access.antt =====
-- database/models.py: packages and customers. A price is in cents, as its column has two decimals.
use mikrotik.Prelude.{ℕ, String, Bool, Option}

-- the values of `service_type`
pub data ServiceType : Type 0 where
  hotspot pppoe : ServiceType

pub record Package : Type 0 where
  pub id : ℕ
  pub uid : String
  pub name : String
  pub description : Option String
  pub price : ℕ
  pub service_type : ServiceType
  pub validity_days : ℕ
  pub validity_minutes : ℕ
  pub router_profile : String
  pub rate_limit : Option String
  pub is_active : Bool
  pub router_id : ℕ
  pub created_at : ℕ
  pub updated_at : ℕ

-- `otp` is the name of the user on the router.
pub record HotspotUser : Type 0 where
  pub id : ℕ
  pub uid : String
  pub phone_number : String
  pub amount : ℕ
  pub otp : String
  pub password_encrypted : Option String
  pub is_active : Bool
  pub expires_at : Option ℕ
  pub package_id : Option ℕ
  pub router_id : ℕ
  pub created_at : ℕ

pub record PppUser : Type 0 where
  pub id : ℕ
  pub uid : String
  pub name : String
  pub email : Option String
  pub pppoe_username : String
  pub pppoe_password : String
  pub mobile_number : String
  pub profile : Option String
  pub expires_on : Option ℕ
  pub location : Option String
  pub apartment : Option String
  pub package_id : Option ℕ
  pub router_id : ℕ
  pub is_active : Bool
  pub created_at : ℕ
  pub updated_at : ℕ

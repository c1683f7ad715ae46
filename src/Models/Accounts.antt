-- ===== src/Models/Accounts.antt =====
-- database/models.py: operators and routers. A `DateTime` is in whole seconds.
use mikrotik.Prelude.{ℕ, String, Bool, Option}

-- the values of `AdminUser.role`
pub data Role : Type 0 where
  superadmin isp : Role

pub record AdminUser : Type 0 where
  pub id : ℕ
  pub username : String
  pub email : Option String
  pub hashed_password : String
  pub role : Role
  pub is_active : Bool
  pub token_version : ℕ
  pub failed_login_count : ℕ
  pub locked_until : Option ℕ
  pub last_login_at : Option ℕ
  pub created_at : ℕ

-- the values of `Router.onboarding_status`
pub data OnboardingStatus : Type 0 where
  pending configured claimed deleted : OnboardingStatus

-- the values of `Router.connection_mode`
pub data ConnectionMode : Type 0 where
  direct l2tp : ConnectionMode

pub record Router : Type 0 where
  pub id : ℕ
  pub uid : String
  pub name : String
  pub ip_address : String
  pub port : ℕ
  pub username : String
  pub password : String
  pub owner_id : Option ℕ
  pub portal_slug : String
  pub portal_enabled : Bool
  pub payment_provider : String
  pub connection_mode : ConnectionMode
  pub onboarding_status : OnboardingStatus
  pub onboarding_download_hash : Option String
  pub onboarding_script_encrypted : Option String
  pub onboarding_token_hash : Option String
  pub onboarding_token_expires_at : Option ℕ
  pub last_seen_at : Option ℕ
  pub last_error : Option String
  pub routeros_version : Option String
  pub created_at : ℕ
  pub updated_at : ℕ

-- ===== src/Api/Admin.antt =====
-- What the API answers about one user: `AdminUserDetail` of apps/web/src/lib/api.ts and its parts,
-- the fields that pages read. A change of the balance is its sign and its size.
use slai.Base.{ℕ, Bool, List, Option, String}
use slai.Text.{Str}
use slai.Api.User.{Role, UserStatus, AuthProvider}
use slai.ApiKey.{KeyStatus}

pub record AdminKey : Type 0 where
  pub id : String
  pub key_prefix : String
  pub status : KeyStatus
  pub omniroute_key_id : Option Str
  pub created_at : String
  pub last_used_at : Option String
  pub revoked_at : Option String

pub record AdminBalance : Type 0 where
  pub available_units : ℕ
  pub lifetime_purchased_units : ℕ
  pub lifetime_used_units : ℕ
  pub version : ℕ
  pub updated_at : String

pub record AdminUsageEvent : Type 0 where
  pub id : String
  pub model : Option String
  pub provider : Option String
  pub total_tokens : ℕ
  pub cost_units : ℕ
  pub status : String
  pub occurred_at : String

pub record AdminLedgerEntry : Type 0 where
  pub id : String
  pub type : String
  pub delta_is_negative : Bool
  pub delta_size : ℕ
  pub balance_after_units : ℕ
  pub reason : Option String
  pub created_at : String

pub record AdminPayment : Type 0 where
  pub id : String
  pub amount_minor : ℕ
  pub currency : String
  pub credit_units : ℕ
  pub status : String
  pub admin_id : Option Str
  pub created_at : String

pub record AdminUserDetail : Type 0 where
  pub id : Str
  pub email : String
  pub role : Role
  pub status : UserStatus
  pub auth_provider : AuthProvider
  pub balance : AdminBalance
  pub api_key : Option AdminKey
  pub recent_usage : List AdminUsageEvent
  pub recent_ledger : List AdminLedgerEntry
  pub recent_payments : List AdminPayment

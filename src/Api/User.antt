-- ===== src/Api/User.antt =====
-- Accounts: `User` of apps/web/src/lib/api.ts and apps/web/src/lib/auth.ts.
use slai.Base.{Bool, true, false, Option, none, some, String}

pub data Role : Type 0 where
  user admin : Role

pub data UserStatus : Type 0 where
  active suspended : UserStatus

pub data AuthProvider : Type 0 where
  password google : AuthProvider

pub record User : Type 0 where
  pub id : String
  pub email : String
  pub role : Role
  pub status : UserStatus
  pub auth_provider : AuthProvider
  pub balance_policy : String
  pub created_at : String
  pub updated_at : String

abbrev is_admin_role : Role → Bool
is_admin_role user = false
is_admin_role admin = true

unfoldable pub is_admin : Option User → Bool
is_admin none = false
is_admin (some u) = is_admin_role u.role

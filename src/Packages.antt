-- ===== src/Packages.antt =====
-- The admin's credit packages: apps/web/src/app/admin/packages/page.tsx and the package types of
-- apps/web/src/lib/api.ts.
pub mod Amount
pub mod Money
pub mod Credits
pub mod Form
pub mod Page
pub mod Shown
pub mod View
use slai.Base.{ℕ, Bool, Option}
use slai.Text.{Str}

-- `negsuc n` is -(n + 1).
pub data ℤ : Type 0 where
  pos : ℕ → ℤ
  negsuc : ℕ → ℤ

pub record CreditPackage : Type 0 where
  pub id : Str
  pub name : Str
  pub description : Option Str
  pub credit_units : ℕ
  pub bonus_credit_units : ℕ
  pub price_minor : ℕ
  pub currency : Str
  pub active : Bool
  pub sort_order : ℤ
  pub created_at : Str
  pub updated_at : Str

-- A scaled number: a count of credit units, or Infinity, which JSON writes as null.
abbrev pub Units : Type 0
Units = Option ℕ

-- A number of credits as the form computes it: a count of millionths, or NaN or an infinity.
pub data CreditNumber : Type 0 where
  finite : (millionths : ℕ) → CreditNumber
  not_finite : CreditNumber

-- `C` is `CreditNumber` before the input is scaled, and `Units` after.
pub record PackageInput (C : Type 0) : Type 0 where
  pub name : Str
  pub description : Option Str
  pub credit_units : C
  pub bonus_credit_units : C
  pub price_minor : ℕ
  pub currency : Str
  pub active : Option Bool
  pub sort_order : ℤ

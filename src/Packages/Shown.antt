-- ===== src/Packages/Shown.antt =====
-- The packages that the admin's page shows and the counts above them: `visiblePackages` and
-- `summary` of apps/web/src/app/admin/packages/page.tsx.
pub mod Laws
use slai.Base.{
  ℕ, ◌+◌, ◌-◌, leb, Bool, true, false, not, ◌&&◌, ◌||◌, List, [], ◌∷◌, Option, none, some,
  if◌then◌else◌, codes, length, filter_by, sum_of,
}
use slai.Text.{Str, trim, truthy, includes, equals}
use slai.Packages.{CreditPackage}
use slai.Packages.Page.{StatusFilter, every, active, inactive}

-- `value ?? ""`
abbrev or_empty : Option Str → Str
or_empty none = []
or_empty (some s) = s

module _ (to_lower_case : Str → Str) (search : Str) where
  unfoldable pub matches_search : CreditPackage → Bool
  unfolding trim includes
  matches_search pkg =
      let query = to_lower_case (trim search) in
      not (truthy query)
      || (includes query (to_lower_case pkg.name)
          || includes query (to_lower_case (or_empty pkg.description)))

  unfoldable pub matches_status : StatusFilter → CreditPackage → Bool
  matches_status every pkg = true
  matches_status active pkg = pkg.active
  matches_status inactive pkg = not pkg.active

  unfoldable pub is_visible : StatusFilter → CreditPackage → Bool
  unfolding matches_status matches_search
  is_visible status pkg = matches_status status pkg && matches_search pkg

  unfoldable pub visible_packages : StatusFilter → List CreditPackage → List CreditPackage
  unfolding is_visible
  visible_packages status packages = filter_by (is_visible status) packages

-- `summary`, less its average price, a rounded quotient.
pub record Summary : Type 0 where
  pub active : ℕ
  pub inactive : ℕ
  pub total_credits : ℕ
  pub currency : Option Str
  pub has_single_currency : Bool

abbrev is_active : CreditPackage → Bool
is_active pkg = pkg.active

-- Whether every package has this currency, as a set of one value at most says.
abbrev all_in : Str → List CreditPackage → Bool
all_in currency [] = true
all_in currency (pkg ∷ packages) = equals currency pkg.currency && all_in currency packages

-- `packages[0]?.currency ?? "USD"`
abbrev first_currency : List CreditPackage → Str
first_currency [] = codes "USD"
first_currency (pkg ∷ packages) = pkg.currency

unfoldable pub summary : List CreditPackage → Summary
summary packages =
    let shown_active = length (filter_by is_active packages) in
    let single = all_in (first_currency packages) packages in
    record {
      active = shown_active;
      inactive = length packages - shown_active;
      total_credits = sum_of (λ pkg. pkg.credit_units + pkg.bonus_credit_units) packages;
      currency = if single then some (first_currency packages) else none;
      has_single_currency = single;
    }

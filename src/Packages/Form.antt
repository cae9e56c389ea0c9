-- ===== src/Packages/Form.antt =====
-- The package form: `validateForm`, `formToInput` and `packageToForm` of
-- apps/web/src/app/admin/packages/page.tsx. `toUpperCase` of Unicode text is an argument.
pub mod Laws
use slai.Base.{
  ℕ, suc, ◌==◌, leb, ltb, Bool, true, false, not, ◌&&◌, ◌||◌, List, [], ◌∷◌, Option, none, some,
  String, if◌then◌else◌, codes,
}
use slai.Text.{Str, trim, truthy, is_digit}
use slai.Text.Regex.{Regex, unit, seq, plus, opt, test}
use slai.Text.Decimal.{to_digits, of_digits}
use slai.Format.{format_credit_input, or_empty}
use slai.Packages.{ℤ, pos, negsuc, CreditPackage, CreditNumber, PackageInput}
use slai.Packages.Amount.{is_credit_amount_string}
use slai.Packages.Money.{ParsedMoney, ok, fail, parse_money_to_minor, minor_to_money}
use slai.Packages.Credits.{credit_number, is_at_most_zero, is_below_zero}

pub record PackageForm : Type 0 where
  pub name : Str
  pub description : Str
  pub credit_units : Str
  pub bonus_credit_units : Str
  pub price : Str
  pub currency : Str
  pub active : Bool
  pub sort_order : Str

-- The keys that `validateForm` can set.
pub record FieldErrors : Type 0 where
  pub name : Option String
  pub currency : Option String
  pub credit_units : Option String
  pub bonus_credit_units : Option String
  pub price : Option String
  pub sort_order : Option String

abbrev pub empty_form : PackageForm
empty_form = record {
  name = [];
  description = [];
  credit_units = codes "1000";
  bonus_credit_units = codes "0";
  price = codes "10.00";
  currency = codes "USD";
  active = true;
  sort_order = codes "0";
}

-- `/^-?\d+$/`
abbrev pub sort_order_regex : Regex
sort_order_regex = seq (opt (unit (λ c. c == b'-'))) (plus (unit is_digit))

-- `Number(value)` for a trimmed string that `sort_order_regex` accepts.
unfoldable pub sort_number : Str → ℤ
sort_number [] = pos 0
sort_number (c ∷ s) =
    if c == b'-'
    then elim (of_digits s) [ ℕ.zero ↦ pos 0 | suc n ↦ negsuc n ]
    else pos (of_digits (c ∷ s))

-- `String(n)`
unfoldable pub to_string : ℤ → Str
to_string (pos n) = to_digits n
to_string (negsuc n) = b'-' ∷ to_digits (suc n)

abbrev pub error_if : Bool → String → Option String
error_if true message = some message
error_if false message = none

abbrev pub price_error : ParsedMoney → Option String
price_error (ok minor) = none
price_error (fail error) = some error

abbrev pub is_absent {ℓ} : {A : Type ℓ} → Option A → Bool
is_absent none = true
is_absent (some _) = false

-- `Object.keys(errors).length === 0`
unfoldable pub no_errors : FieldErrors → Bool
no_errors e =
    is_absent e.name
    && is_absent e.currency
    && is_absent e.credit_units
    && is_absent e.bonus_credit_units
    && is_absent e.price
    && is_absent e.sort_order

unfoldable pub field_errors : PackageForm → FieldErrors
field_errors form = record {
  name = error_if (not (truthy (trim form.name))) "Name is required.";
  currency = error_if (not (truthy (trim form.currency))) "Currency is required.";
  credit_units =
      error_if
        (not (is_credit_amount_string form.credit_units)
          || is_at_most_zero (credit_number form.credit_units))
        "Included credits must be greater than 0 and use up to 6 decimals.";
  bonus_credit_units =
      error_if
        (not (is_credit_amount_string form.bonus_credit_units)
          || is_below_zero (credit_number form.bonus_credit_units))
        "Bonus credits must be 0 or greater and use up to 6 decimals.";
  price = price_error (parse_money_to_minor form.price);
  sort_order =
      error_if (not (test sort_order_regex (trim form.sort_order))) "Sort order must be a number.";
}

unfoldable pub validate_form : PackageForm → FieldErrors × Bool
unfolding field_errors no_errors
validate_form form = let errors = field_errors form in (errors, no_errors errors)

-- What `formToInput` returns or throws.
pub data Conversion : Type 0 where
  input : PackageInput CreditNumber → Conversion
  thrown : (message : String) → Conversion

-- `text || null`
abbrev pub or_null : Str → Option Str
or_null [] = none
or_null (c ∷ s) = some (c ∷ s)

module _ (to_upper_case : Str → Str) where
  unfoldable pub input_at : PackageForm → ParsedMoney → Conversion
  input_at form (fail error) = thrown error
  input_at form (ok minor) = input (record {
    name = trim form.name;
    description = or_null (trim form.description);
    credit_units = credit_number form.credit_units;
    bonus_credit_units = credit_number form.bonus_credit_units;
    price_minor = minor;
    currency = to_upper_case (trim form.currency);
    active = some form.active;
    sort_order = sort_number (trim form.sort_order);
  })

  unfoldable pub form_to_input : PackageForm → Conversion
  unfolding input_at
  form_to_input form = input_at form (parse_money_to_minor form.price)

unfoldable pub package_to_form : CreditPackage → PackageForm
package_to_form pkg = record {
  name = pkg.name;
  description = or_empty pkg.description;
  credit_units = format_credit_input (some pkg.credit_units);
  bonus_credit_units = format_credit_input (some pkg.bonus_credit_units);
  price = minor_to_money pkg.price_minor;
  currency = pkg.currency;
  active = pkg.active;
  sort_order = to_string pkg.sort_order;
}

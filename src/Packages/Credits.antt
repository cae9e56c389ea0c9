-- ===== src/Packages/Credits.antt =====
-- Credits: `Number(...)` of a credit amount, and `toStoredCredits` with the inputs that it scales
-- (apps/web/src/lib/api.ts). A finite number is a count of millionths of a credit, which is what a
-- double of up to 15 significant digits keeps; a larger one is rounded, and one that is too large
-- for a double is Infinity.
pub mod Laws
use slai.Base.{
  ℕ, ◌+◌, ◌*◌, ◌-◌, ◌^◌, Bool, false, leb, ltb, if◌then◌else◌, List, Option, none, some,
  Option-cases,
}
use slai.Text.{Str, trim}
use slai.Text.Decimal.{of_digits, pad_end, split}
use slai.Packages.{Units, CreditNumber, finite, not_finite, PackageInput}
use slai.Packages.Amount.{point}
use slai.Packages.Money.{destructure}

unfoldable pub millionths_of_parts : Str × Str → ℕ
millionths_of_parts (whole, fraction) =
    of_digits whole * 1000000 + of_digits (pad_end 6 b'0' fraction)

-- What a string that `is_credit_amount_string` accepts stands for, in millionths.
unfoldable pub credit_millionths : Str → ℕ
unfolding millionths_of_parts
credit_millionths value = millionths_of_parts (destructure (split point (trim value)))

-- 2^1024 - 2^970: a number from there on is rounded to Infinity.
unfoldable pub infinity_from : ℕ
infinity_from = 2 ^ 1024 - 2 ^ 970

unfoldable pub of_millionths : ℕ → CreditNumber
of_millionths millionths =
    if leb (infinity_from * 1000000) millionths then not_finite else finite millionths

-- `Number(value)` for such a string.
unfoldable pub credit_number : Str → CreditNumber
unfolding credit_millionths of_millionths
credit_number value = of_millionths (credit_millionths value)

-- `number <= 0` and `number < 0`; `Number` of a credit amount is not NaN.
abbrev pub is_at_most_zero : CreditNumber → Bool
is_at_most_zero (finite millionths) = leb millionths 0
is_at_most_zero not_finite = false

abbrev pub is_below_zero : CreditNumber → Bool
is_below_zero (finite millionths) = ltb millionths 0
is_below_zero not_finite = false

-- `Math.round(value * CREDIT_UNIT_SCALE)`: a millionth of a credit is one unit, and the product
-- may be too large for a double.
unfoldable pub to_stored_credits : CreditNumber → Units
to_stored_credits (finite millionths) =
    if leb infinity_from millionths then none else some millionths
to_stored_credits not_finite = some 0

unfoldable pub scale_package_input : PackageInput CreditNumber → PackageInput Units
unfolding to_stored_credits
scale_package_input input = record {
  name = input.name;
  description = input.description;
  credit_units = to_stored_credits input.credit_units;
  bonus_credit_units = to_stored_credits input.bonus_credit_units;
  price_minor = input.price_minor;
  currency = input.currency;
  active = input.active;
  sort_order = input.sort_order;
}

-- ===== src/Format.antt =====
-- apps/web/src/lib/format.ts: the parts that compute with text themselves. The formats of
-- `Intl.NumberFormat` with grouping, compact notation or a currency, and of dates, are arguments of
-- the definitions that show them.
pub mod Laws
pub mod Ledger
use slai.Base.{
  ℕ, ◌+◌, ◌*◌, ◌/◌, ◌%◌, Bool, true, false, ◌||◌, List, [], ◌∷◌, ◌++◌, Option, none, some,
  if◌then◌else◌, leb, length, take, codes,
}
use slai.Text.{Str, trim, truthy, slice_last, includes}
use slai.Text.Decimal.{to_digits, fixed_digits, strip_zeros}

abbrev pub credit_unit_scale : ℕ
credit_unit_scale = 1000000

-- `value ?? 0`
abbrev pub or_0 : Option ℕ → ℕ
or_0 none = 0
or_0 (some n) = n

-- A point before a fraction that has digits.
abbrev pub with_point : Str → Str
with_point [] = []
with_point (c ∷ f) = b'.' ∷ c ∷ f

-- Without grouping and with at most six fraction digits, for units below 2^51, where the quotient
-- by 10^6 is known to more than six decimals.
unfoldable pub format_credit_input : Option ℕ → Str
format_credit_input value =
    let units = or_0 value in
    to_digits (units / credit_unit_scale) ++ with_point (strip_zeros (fixed_digits 6 units))

abbrev pub or_empty : Option Str → Str
or_empty none = []
or_empty (some s) = s

unfoldable pub truncate_id : Option Str → ℕ → ℕ → Str
truncate_id value start end =
    let v = or_empty value in
    if truthy v
    then (if leb (length v) (start + end + 3)
        then v
        else take start v ++ codes "..." ++ slice_last end v)
    else codes "-"

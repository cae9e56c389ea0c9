-- ===== src/Packages/Money.antt =====
-- Prices: `parseMoneyToMinor` and `minorToMoney` of apps/web/src/app/admin/packages/page.tsx.
-- Numbers are naturals. A product or sum of doubles that is above 2^53 - 1 is rounded to one that
-- still is, so `Number.isSafeInteger` refuses the same strings as the exact test here. The quotient
-- of `minorToMoney` is exact enough for `toFixed(2)` up to `exact_minor`.
pub mod Laws
use slai.Base.{
  ℕ, ◌+◌, ◌*◌, ◌/◌, ◌%◌, Bool, true, false, not, ◌||◌, List, [], ◌∷◌, ◌++◌, String, if◌then◌else◌,
  leb, ltb,
}
use slai.Text.{Str, trim, truthy}
use slai.Text.Regex.{test}
use slai.Text.Decimal.{to_digits, fixed_digits, of_digits, pad_end, split}
use slai.Packages.Amount.{point, money_regex}

pub data ParsedMoney : Type 0 where
  ok : (minor : ℕ) → ParsedMoney
  fail : (error : String) → ParsedMoney

-- 2^53 - 1
abbrev pub max_safe_integer : ℕ
max_safe_integer = 9007199254740991

-- 2^46 * 100: up to this price `toFixed(2)` writes the quotient exactly, and above it the quotient
-- is rounded to a double that may be another number of hundredths.
abbrev pub exact_minor : ℕ
exact_minor = 7036874417766400

abbrev pub is_safe_integer : ℕ → Bool
is_safe_integer n = leb n max_safe_integer

-- `const [wholePart, fractionPart = ""] = ...`
abbrev pub destructure : List Str → Str × Str
destructure [] = ([], [])
destructure (w ∷ []) = (w, [])
destructure (w ∷ f ∷ _) = (w, f)

abbrev pub or_zero : Str → Str
or_zero [] = b'0' ∷ []
or_zero (c ∷ s) = c ∷ s

unfoldable pub minor_of_parts : Str × Str → ℕ
minor_of_parts (whole_part, fraction_part) =
    of_digits whole_part * 100 + of_digits (or_zero (pad_end 2 b'0' fraction_part))

unfoldable pub check_minor : ℕ → ParsedMoney
check_minor minor =
    if ltb minor 0 || not (is_safe_integer minor)
    then fail "Price must be 0 or greater."
    else ok minor

unfoldable pub parse_money_to_minor : Str → ParsedMoney
unfolding minor_of_parts check_minor
parse_money_to_minor value =
    let normalized = trim value in
    if not (truthy normalized)
    then fail "Price is required."
    else if not (test money_regex normalized)
    then fail "Use a valid money amount with up to two decimals."
    else check_minor (minor_of_parts (destructure (split point normalized)))

-- `(minor / 100).toFixed(2)`, up to `exact_minor`.
unfoldable pub minor_to_money : ℕ → Str
minor_to_money minor = to_digits (minor / 100) ++ point ∷ fixed_digits 2 minor

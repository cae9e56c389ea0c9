-- ===== src/Text/Decimal.antt =====
-- Decimal notation of natural numbers: `String(n)`, `Number(s)` on a run of digits, `padEnd`,
-- `split`, and the digits after the point that `toFixed` and `Intl.NumberFormat` write.
pub mod Laws
use slai.Base.{
  ℕ, zero, suc, ◌+◌, ◌-◌, ◌*◌, ◌/◌, ◌%◌, Bool, true, false, List, [], ◌∷◌, ◌++◌, ltb, ◌==◌,
  if◌then◌else◌,
}
use slai.Text.{Str}

abbrev pub digit : ℕ → ℕ
digit d = d + b'0'

-- The fuel n + 1 is more than the digits of n.
pub digits_from : ℕ → ℕ → Str
digits_from zero n = []
digits_from (suc f) n =
    let rest = digits_from f (n / 10) ++ digit (n % 10) ∷ [] in
    if ltb n 10 then digit n ∷ [] else rest

-- `String(n)`
unfoldable pub to_digits : ℕ → Str
unfolding digits_from
to_digits n = digits_from (suc n) n

-- The last k digits of n, with leading zeros.
unfoldable pub fixed_digits : ℕ → ℕ → Str
fixed_digits zero n = []
fixed_digits (suc k) n = fixed_digits k (n / 10) ++ digit (n % 10) ∷ []

pub value_from : ℕ → Str → ℕ
value_from acc [] = acc
value_from acc (c ∷ s) = value_from (acc * 10 + (c - b'0')) s

-- `Number(s)` for a string of digits; `Number("")` is 0.
unfoldable pub of_digits : Str → ℕ
unfolding value_from
of_digits s = value_from 0 s

-- `s.padEnd(n, c)`
unfoldable pub pad_end : ℕ → ℕ → Str → Str
pad_end zero c s = s
pad_end (suc n) c [] = c ∷ pad_end n c []
pad_end (suc n) c (x ∷ s) = x ∷ pad_end n c s

abbrev cons_head : ℕ → List Str → List Str
cons_head x [] = (x ∷ []) ∷ []
cons_head x (p ∷ ps) = (x ∷ p) ∷ ps

-- `s.split(c)` for a separator of one unit.
unfoldable pub split : ℕ → Str → List Str
split c [] = [] ∷ []
split c (x ∷ s) = let rest = split c s in if x == c then [] ∷ rest else cons_head x rest

abbrev keep_digit : ℕ → Str → Str
keep_digit c [] = if c == b'0' then [] else c ∷ []
keep_digit c (d ∷ t) = c ∷ d ∷ t

-- A fraction without its trailing zeros.
unfoldable pub strip_zeros : Str → Str
strip_zeros [] = []
strip_zeros (c ∷ s) = keep_digit c (strip_zeros s)

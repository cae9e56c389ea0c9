-- ===== src/Text.antt =====
-- JavaScript strings as lists of UTF-16 code units, with the string methods that the web console
-- calls (trim, includes, startsWith, split, padEnd, slice). `is_space` is the class that both
-- `String.prototype.trim` and `\s` use.
pub mod Trim
pub mod Trimmed
pub mod Equality
pub mod Regex
pub mod Decimal
use slai.Base.{
  ℕ, zero, suc, ◌-◌, Bool, true, false, ◌&&◌, ◌||◌, List, [], ◌∷◌, Option, none, some, ◌++◌, leb,
  ◌==◌, any, if◌then◌else◌, length, drop,
}

abbrev pub Str : Type 0
Str = List ℕ

-- White space and line terminators of ECMA-262.
unfoldable pub is_space : ℕ → Bool
is_space c =
    (leb 9 c && leb c 13)
    || c == 32
    || c == 160
    || c == 0x1680
    || (leb 0x2000 c && leb c 0x200a)
    || c == 0x2028
    || c == 0x2029
    || c == 0x202f
    || c == 0x205f
    || c == 0x3000
    || c == 0xfeff

abbrev pub is_digit : ℕ → Bool
is_digit c = leb b'0' c && leb c b'9'

unfoldable pub trim_start : Str → Str
trim_start [] = []
trim_start (c ∷ s) = let rest = trim_start s in if is_space c then rest else c ∷ s

-- What is left of `c` before a trimmed rest.
abbrev pub keep : ℕ → Str → Str
keep c [] = if is_space c then [] else c ∷ []
keep c (d ∷ t) = c ∷ d ∷ t

unfoldable pub trim_end : Str → Str
trim_end [] = []
trim_end (c ∷ s) = keep c (trim_end s)

unfoldable pub trim : Str → Str
unfolding trim_start trim_end is_space
trim s = trim_end (trim_start s)

abbrev pub is_empty {ℓ} : {A : Type ℓ} → List A → Bool
is_empty [] = true
is_empty (_ ∷ _) = false

-- `!s`: the empty string is the one falsy string.
abbrev pub truthy : Str → Bool
truthy [] = false
truthy (_ ∷ _) = true

unfoldable pub equals : Str → Str → Bool
equals [] [] = true
equals (a ∷ s) (b ∷ t) = a == b && equals s t
equals _ _ = false

unfoldable pub starts_with : Str → Str → Bool
starts_with [] s = true
starts_with (_ ∷ _) [] = false
starts_with (p ∷ ps) (c ∷ s) = p == c && starts_with ps s

-- `s.includes(p)`
unfoldable pub includes : Str → Str → Bool
unfolding starts_with
includes p [] = starts_with p []
includes p (c ∷ s) = starts_with p (c ∷ s) || includes p s

-- `s.slice(-k)` for k ≥ 1.
abbrev pub slice_last : ℕ → Str → Str
slice_last k s = drop (length s - k) s

-- Neither missing nor empty.
abbrev pub has_text : Option Str → Bool
has_text none = false
has_text (some s) = truthy s

-- `value || undefined`
abbrev pub if_truthy : Str → Option Str
if_truthy [] = none
if_truthy (c ∷ s) = some (c ∷ s)

-- `value?.trim() || undefined`, the `trimmed` of the admin's list pages.
unfoldable pub trimmed : Option Str → Option Str
unfolding trim
trimmed none = none
trimmed (some s) = if_truthy (trim s)

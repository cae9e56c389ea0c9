-- ===== src/Format/Ledger.antt =====
-- How a ledger entry is worded: `formatLedgerReason` and `formatDelta` of
-- apps/web/src/lib/format.ts. The patterns are ASCII words, which the flag i compares without the
-- case of ASCII letters alone.
pub mod Laws
use slai.Base.{
  ℕ, zero, suc, ◌+◌, ◌==◌, leb, Bool, true, false, ◌&&◌, ◌||◌, List, [], ◌∷◌, ◌++◌, Option, none,
  some, String, if◌then◌else◌, str_eq, codes,
}
use slai.Text.{Str, trim, truthy}

abbrev pub lower : ℕ → ℕ
lower c = if leb b'A' c && leb c b'Z' then c + 32 else c

unfoldable pub starts_with_word : (word : Str) → Str → Bool
starts_with_word [] s = true
starts_with_word (p ∷ ps) [] = false
starts_with_word (p ∷ ps) (c ∷ s) = p == lower c && starts_with_word ps s

-- `/word/i.test(s)`, for a word in lower case.
unfoldable pub has_word : (word : Str) → Str → Bool
unfolding starts_with_word
has_word word [] = starts_with_word word []
has_word word (c ∷ s) = starts_with_word word (c ∷ s) || has_word word s

-- `s.replace(/omniroute/gi, "SLAI")`, with the units of a match that are still to be passed over.
unfoldable pub replace_name : (pending : ℕ) → Str → Str
unfolding starts_with_word
replace_name pending [] = []
replace_name (suc pending) (c ∷ s) = replace_name pending s
replace_name zero (c ∷ s) =
    let after_match = replace_name 8 s in
    let after_unit = replace_name 0 s in
    if starts_with_word (codes "omniroute") (c ∷ s)
    then codes "SLAI" ++ after_match
    else c ∷ after_unit

abbrev pub trimmed_or_empty : Option Str → Str
unfolding trim
trimmed_or_empty none = []
trimmed_or_empty (some s) = trim s

abbrev pub or_text : Str → Str → Str
or_text [] fallback = fallback
or_text (c ∷ s) fallback = c ∷ s

abbrev pub is_usage_debit : Option String → Bool
is_usage_debit none = false
is_usage_debit (some type) = str_eq type "usage_debit"

abbrev pub ledger_text : (type : Option String) → (raw : Str) → Str
unfolding has_word replace_name
ledger_text type [] = codes "-"
ledger_text type (c ∷ s) =
    let raw = c ∷ s in
    if has_word (codes "omniroute") raw
    then (if is_usage_debit type || has_word (codes "usage") raw
        then codes "API usage billing"
        else replace_name 0 raw)
    else raw

unfoldable pub format_ledger_reason : (type : Option String) → (reason source : Option Str) → Str
unfolding trim has_word replace_name
format_ledger_reason type reason source =
    ledger_text type (or_text (trimmed_or_empty reason) (trimmed_or_empty source))

-- A delta by its sign and its size.
unfoldable pub format_delta : (format_credits : ℕ → Str) → (negative : Bool) → (size : ℕ) → Str
format_delta format_credits negative size =
    if negative then b'-' ∷ format_credits size else b'+' ∷ format_credits size

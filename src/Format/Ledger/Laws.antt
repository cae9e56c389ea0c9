-- ===== src/Format/Ledger/Laws.antt =====
-- A customer does not read the provider's name in a ledger entry.
use slai.Base.{
  ℕ, zero, suc, ◌==◌, ◌≡◌, refl, Bool, true, false, not, ◌&&◌, ◌||◌, [], ◌∷◌, Option, String,
  if◌then◌else◌, codes, all, if_split, arith,
}
use slai.Text.{Str}
use slai.Format.Ledger.{
  lower, starts_with_word, has_word, replace_name, ledger_text, is_usage_debit, trimmed_or_empty,
  or_text, format_ledger_reason,
}

abbrev name : Str
name = codes "omniroute"

-- A word without an s, the first letter of what the name is replaced by.
abbrev IsFree : Str → Type 0
IsFree w = all (λ p. not (p == b's')) w ≡ true

-- A word that stands at the start of a rewritten text stood there before.
starts_with-replace_name :
    (w s : Str)
    → IsFree w
    → starts_with_word w (replace_name 0 s) ≡ true
    → starts_with_word w s ≡ true
unfolding replace_name starts_with_word
starts_with-replace_name [] s f = λ h. refl
starts_with-replace_name (p ∷ ps) [] f = λ h. h
starts_with-replace_name (p ∷ ps) (c ∷ s) f =
    if_split
      (λ (r : Str).
        starts_with_word (p ∷ ps) r ≡ true → (p == lower c && starts_with_word ps s) ≡ true)
      (starts_with_word name (c ∷ s)) (λ e h. ground (arith, f, h))
      (λ e h. ground (arith, f, h, starts_with-replace_name ps s))

not_true : (b : Bool) → (b ≡ true → ⊥) → b ≡ false
not_true true n = elim (n refl) [ ]
not_true false n = refl

or_false : (a b : Bool) → a ≡ false → b ≡ false → (a || b) ≡ false
or_false a b h k = ground (arith, h, k)

has_word-replace_name : (k : ℕ) (s : Str) → has_word name (replace_name k s) ≡ false
unfolding replace_name has_word starts_with_word
has_word-replace_name k [] = refl
has_word-replace_name (suc k) (c ∷ s) = has_word-replace_name k s
has_word-replace_name zero (c ∷ s) =
    if_split (λ (r : Str). has_word name r ≡ false) (starts_with_word name (c ∷ s))
      (λ e. has_word-replace_name 8 s)
      (λ e.
        or_false (starts_with_word name (c ∷ replace_name 0 s)) (has_word name (replace_name 0 s))
          (not_true (starts_with_word name (c ∷ replace_name 0 s))
            (λ h. ground (arith, e, h, starts_with-replace_name (codes "mniroute") s refl)))
          (has_word-replace_name 0 s))

billing_text : has_word name (codes "API usage billing") ≡ false
unfolding has_word starts_with_word
billing_text = refl

no_text : has_word name (codes "-") ≡ false
unfolding has_word starts_with_word
no_text = refl

reworded :
    (usage : Bool) (raw : Str)
    → has_word name (
        if has_word name raw
        then (if usage then codes "API usage billing" else replace_name 0 raw)
        else raw)
      ≡ false
reworded usage raw =
    if_split (λ (r : Str). has_word name r ≡ false) (has_word name raw)
      (λ e.
        if_split (λ (r : Str). has_word name r ≡ false) usage (λ q. billing_text)
          (λ q. has_word-replace_name 0 raw))
      (λ e. e)

has_word-ledger_text :
    (type : Option String) (raw : Str) → has_word name (ledger_text type raw) ≡ false
unfolding ledger_text
has_word-ledger_text type [] = no_text
has_word-ledger_text type (c ∷ s) =
    reworded (is_usage_debit type || has_word (codes "usage") (c ∷ s)) (c ∷ s)

-- Whatever the type, the reason and the source of a ledger entry are, the name of the provider
-- does not stand in the text that is shown for it, in upper or lower case.
pub has_word-format_ledger_reason :
    (type : Option String) (reason source : Option Str)
    → has_word (codes "omniroute") (format_ledger_reason type reason source) ≡ false
unfolding format_ledger_reason
has_word-format_ledger_reason type reason source =
    has_word-ledger_text type (or_text (trimmed_or_empty reason) (trimmed_or_empty source))

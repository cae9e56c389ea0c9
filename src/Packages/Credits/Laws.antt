-- ===== src/Packages/Credits/Laws.antt =====
-- A stored number of credit units is shown in the form, and read back as the same number.
use slai.Base.{
  ℕ, ◌+◌, ◌*◌, ◌/◌, ◌≡◌, ◌≢◌, ◌≤◌, ◌<◌, ◌⊎◌, inl, inr, ap, leb, Bool-cases, false, refl, ◌∙◌, true,
  [], ◌∷◌, ◌++◌, some, arith, append-nil,
}
use slai.Text.{Str, trim}
use slai.Text.Decimal.{to_digits, fixed_digits, of_digits, pad_end, strip_zeros}
use slai.Text.Decimal.Laws.{
  of_digits-to_digits, to_digits-all, to_digits-ne-nil, fixed_digits-all, length-fixed_digits,
  pad_end-strip_zeros, of_digits-fixed_digits, strip_zeros-all, length-strip_zeros,
}
use slai.Format.{format_credit_input, with_point}
use slai.Packages.Amount.{written, is_credit_amount_string}
use slai.Packages.Amount.Laws.{IsAmount, IsAmount→test, trim-IsAmount, split-written}
use slai.Packages.Money.Laws.{destructure-parts}
use slai.Packages.{finite, not_finite}
use slai.Packages.Credits.{
  credit_number, credit_millionths, of_millionths, infinity_from, to_stored_credits,
}

written-with_point : (w f : Str) → w ++ with_point f ≡ written w f
written-with_point w [] = append-nil w
written-with_point w (c ∷ f) = refl

format-IsAmount :
    (u : ℕ)
    → IsAmount 6
        (format_credit_input (some u))
        (to_digits (u / 1000000))
        (strip_zeros (fixed_digits 6 u))
unfolding format_credit_input
format-IsAmount u = record {
  whole = to_digits-ne-nil (u / 1000000);
  whole_digits = to_digits-all (u / 1000000);
  fraction_digits = strip_zeros-all (fixed_digits 6 u) (fixed_digits-all 6 u);
  short = omega (arith, length-strip_zeros (fixed_digits 6 u), length-fixed_digits 6 u);
  shape = written-with_point (to_digits (u / 1000000)) (strip_zeros (fixed_digits 6 u));
}

pub credit_millionths-of_amount :
    (s w f : Str)
    → IsAmount 6 (trim s) w f
    → credit_millionths s ≡ of_digits w * 1000000 + of_digits (pad_end 6 b'0' f)
unfolding credit_millionths
credit_millionths-of_amount s w f h =
    rw (h.shape, split-written w f h.whole_digits h.fraction_digits, destructure-parts w f) refl

trimmed-IsAmount :
    (u : ℕ)
    → IsAmount 6
        (trim (format_credit_input (some u)))
        (to_digits (u / 1000000))
        (strip_zeros (fixed_digits 6 u))
trimmed-IsAmount u = let a = format-IsAmount u in rw (trim-IsAmount 6 _ _ _ a) a

-- The text that an edit form shows for a number of units is a credit amount.
pub is_credit_amount-format_credit_input :
    (u : ℕ) → is_credit_amount_string (format_credit_input (some u)) ≡ true
unfolding is_credit_amount_string
is_credit_amount-format_credit_input u = IsAmount→test 5 _ _ _ (trimmed-IsAmount u)

-- A number of credit units, written as the form shows it, stands for the same number of units.
pub credit_millionths-format_credit_input :
    (u : ℕ) → credit_millionths (format_credit_input (some u)) ≡ u
credit_millionths-format_credit_input u =
    credit_millionths-of_amount _ _ _ (trimmed-IsAmount u)
    ∙ rw
        (
          of_digits-to_digits (u / 1000000),
          pad_end-strip_zeros 6 (fixed_digits 6 u) (length-fixed_digits 6 u),
          of_digits-fixed_digits u,
        )
        (omega arith)

-- 10^15: a double keeps that many millionths.
abbrev pub exact_units : ℕ
exact_units = 1000000000000000

exact-finite : leb infinity_from exact_units ≡ false
unfolding infinity_from
exact-finite = refl

pub exact-large : 0 < infinity_from * 1000000
exact-large = ground (arith, exact-finite)

-- A number that a double keeps is finite, and scaled without a change.
pub of_millionths-exact :
    (u : ℕ)
    → u ≤ exact_units
    → (of_millionths u ≡ finite u) × (to_stored_credits (finite u) ≡ some u)
unfolding of_millionths to_stored_credits
of_millionths-exact u h = ground (arith, exact-finite)

pub credit_number-format_credit_input :
    (u : ℕ) → u ≤ exact_units → credit_number (format_credit_input (some u)) ≡ finite u
unfolding credit_number
credit_number-format_credit_input u h =
    ap of_millionths (credit_millionths-format_credit_input u) ∙ (of_millionths-exact u h).0

-- Some credits are more than none, unless they are so many that their number is infinite.
pub to_stored-positive :
    (n : ℕ)
    → 0 < n
    → (to_stored_credits (of_millionths n) ≢ some 0) ⊎ (of_millionths n ≡ not_finite)
unfolding to_stored_credits of_millionths
to_stored-positive n h = elim (Bool-cases (leb (infinity_from * 1000000) n)) [
  | inl e ↦ inr (rw e refl)
  | inr e ↦ elim (Bool-cases (leb infinity_from n)) [
    | inl k ↦ inl (rw (e, k) (λ q. cc))
    | inr k ↦ inl (rw (e, k) (λ q. ground arith))
  ]
]

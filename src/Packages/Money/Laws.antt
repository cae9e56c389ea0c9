-- ===== src/Packages/Money/Laws.antt =====
-- Prices are read exactly, within the safe integers, and read back as they were written.
use slai.Base.{
  ℕ, ◌+◌, ◌-◌, ◌*◌, ◌/◌, ◌%◌, ◌≤◌, ◌≡◌, ◌↔◌, refl, sym, ap, ◌∙◌, inl, inr, Bool, true, false, not,
  [], ◌∷◌, arith, length, Bool-cases, if◌then◌else◌,
}
use slai.Text.{Str, trim, truthy}
use slai.Text.Regex.{test}
use slai.Text.Decimal.{to_digits, fixed_digits, of_digits, pad_end, split}
use slai.Text.Decimal.Laws.{of_digits-to_digits, to_digits-all, to_digits-ne-nil, fixed_digits-all}
use slai.Packages.Amount.{point, money_regex}
use slai.Packages.Amount.Laws.{
  IsAmount, test-amount→IsAmount, IsAmount→test, trim-IsAmount, split-written, parts,
}
use slai.Packages.Money.{
  ok, fail, max_safe_integer, exact_minor, destructure, or_zero, minor_of_parts, check_minor,
  parse_money_to_minor, minor_to_money,
}

-- The hundredths that a fraction of at most two digits stands for.
abbrev pub cents : Str → ℕ
cents [] = 0
cents (a ∷ []) = (a - b'0') * 10
cents (a ∷ b ∷ _) = (a - b'0') * 10 + (b - b'0')

pub destructure-parts : (w f : Str) → destructure (parts w f) ≡ (w, f)
destructure-parts w [] = refl
destructure-parts w (c ∷ f) = refl

of_digits-pad : (f : Str) → length f ≤ 2 → of_digits (or_zero (pad_end 2 b'0' f)) ≡ cents f
unfolding of_digits pad_end
of_digits-pad [] h = refl
of_digits-pad (a ∷ []) h = omega arith
of_digits-pad (a ∷ b ∷ []) h = omega arith
of_digits-pad (a ∷ b ∷ c ∷ f) h = absurd (omega arith)

minor_of_parts-amount :
    (s w f : Str)
    → IsAmount 2 s w f
    → minor_of_parts (destructure (split point s)) ≡ of_digits w * 100 + cents f
unfolding minor_of_parts
minor_of_parts-amount s w f h =
    rw
      (
        h.shape,
        split-written w f h.whole_digits h.fraction_digits,
        destructure-parts w f,
        of_digits-pad f h.short,
      )
      refl

check_minor-ok : (n : ℕ) → n ≤ max_safe_integer → check_minor n ≡ ok n
unfolding check_minor
check_minor-ok n h = ground arith

check_minor-inv : (n m : ℕ) → check_minor n ≡ ok m → (n ≡ m) × (n ≤ max_safe_integer)
unfolding check_minor
check_minor-inv n m h = ground arith

truthy-amount : (s w f : Str) → IsAmount 2 s w f → truthy s ≡ true
truthy-amount s [] f h = absurd (h.whole refl)
truthy-amount s (c ∷ w) [] h = rw h.shape refl
truthy-amount s (c ∷ w) (d ∷ f) h = rw h.shape refl

parse-of_amount :
    (s w f : Str)
    → IsAmount 2 (trim s) w f
    → parse_money_to_minor s ≡ check_minor (of_digits w * 100 + cents f)
unfolding parse_money_to_minor
parse-of_amount s w f h =
    rw
      (
        truthy-amount (trim s) w f h,
        IsAmount→test 1 (trim s) w f h,
        minor_of_parts-amount (trim s) w f h,
      )
      refl

parse-ok→test : (s : Str) (m : ℕ) → parse_money_to_minor s ≡ ok m → test money_regex (trim s) ≡ true
unfolding parse_money_to_minor
parse-ok→test s m e = elim (Bool-cases (test money_regex (trim s))) [
  | inl h ↦ h
  | inr h ↦ absurd (refused (truthy (trim s)) (rw h at e))
]
  where
    refused :
        (b : Bool)
        → (if not b
            then fail "Price is required."
            else fail "Use a valid money amount with up to two decimals.")
          ≡ ok m
        → ⊥
    refused true e = cc
    refused false e = cc

-- Parsing a price gives m exactly when the trimmed text is digits with at most two decimals, m is
-- the number of hundredths that they stand for, and m is at most 2^53 - 1.
pub parse_money_iff :
    (s : Str) (m : ℕ)
    → (parse_money_to_minor s ≡ ok m) ↔ (
        (w : Str) × (f : Str) × IsAmount 2 (trim s) w f
        × (m ≡ of_digits w * 100 + cents f)
        × (m ≤ max_safe_integer))
parse_money_iff s m = (to, from)
  where
    to :
        parse_money_to_minor s ≡ ok m
        → (w : Str) × (f : Str) × IsAmount 2 (trim s) w f
          × (m ≡ of_digits w * 100 + cents f)
          × (m ≤ max_safe_integer)
    to e =
        let (w, f, h) = test-amount→IsAmount 1 (trim s) (parse-ok→test s m e) in
        let (same, safe) =
          check_minor-inv (of_digits w * 100 + cents f) m (sym (parse-of_amount s w f h) ∙ e) in
        (w, f, h, sym same, omega arith)

    from :
        (w : Str) × (f : Str) × IsAmount 2 (trim s) w f
          × (m ≡ of_digits w * 100 + cents f)
          × (m ≤ max_safe_integer)
        → parse_money_to_minor s ≡ ok m
    from (w, f, h, e, safe) =
        parse-of_amount s w f h ∙ ap check_minor (sym e) ∙ check_minor-ok m safe

minor_to_money-IsAmount :
    (m : ℕ) → IsAmount 2 (minor_to_money m) (to_digits (m / 100)) (fixed_digits 2 m)
unfolding minor_to_money
minor_to_money-IsAmount m = record {
  whole = to_digits-ne-nil (m / 100);
  whole_digits = to_digits-all (m / 100);
  fraction_digits = fixed_digits-all 2 m;
  short = unfold fixed_digits in omega arith;
  shape = unfold fixed_digits in refl;
}

cents-fixed_digits : (m : ℕ) → cents (fixed_digits 2 m) ≡ m % 100
unfolding fixed_digits
cents-fixed_digits m = omega arith

-- A price of at most 2^46 * 100 minor units, up to which a double writes the hundredths exactly,
-- is parsed back from the form's text to the same minor units.
pub parse-minor_to_money :
    (m : ℕ) → m ≤ exact_minor → parse_money_to_minor (minor_to_money m) ≡ ok m
parse-minor_to_money m h =
    let a = minor_to_money-IsAmount m in
    (parse_money_iff (minor_to_money m) m).1 (
      to_digits (m / 100),
      fixed_digits 2 m,
      rw (trim-IsAmount 2 _ _ _ a) a,
      omega (arith, of_digits-to_digits (m / 100), cents-fixed_digits m),
      omega arith,
    )

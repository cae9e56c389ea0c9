-- ===== src/Packages/Form/Laws.antt =====
-- Validation of the package form is exact, a valid form is converted without an error, and an
-- unedited package is saved as it was.
use slai.Base.{
  ℕ, ◌≤◌, ◌<◌, ◌≡◌, ◌≢◌, ◌↔◌, ◌⊎◌, ◌++◌, ◌*◌, ◌+◌, ==_iff, refl, ap, ◌∙◌, inl, inr, true, false, [],
  ◌∷◌, none, some, arith, all,
}
use slai.Text.{Str, trim, truthy, is_digit}
use slai.Text.Regex.{test}
use slai.Text.Regex.Semantics.{test_iff, Lang, Lang-plus_unit_iff}
use slai.Text.Decimal.{of_digits, pad_end}
use slai.Format.{or_empty}
use slai.Packages.{Units, CreditPackage, CreditNumber, finite, not_finite, PackageInput}
use slai.Packages.Amount.{is_credit_amount_string}
use slai.Packages.Amount.Laws.{IsAmount, test-amount→IsAmount, IsAmount→test}
use slai.Packages.Money.{ParsedMoney, ok, fail, parse_money_to_minor, max_safe_integer, exact_minor}
use slai.Packages.Money.Laws.{parse_money_iff, cents}
use slai.Packages.Credits.{
  credit_number, credit_millionths, of_millionths, is_at_most_zero, is_below_zero,
  scale_package_input,
}
use slai.Packages.Credits.Laws.{
  exact_units, credit_millionths-of_amount, to_stored-positive, exact-large,
}
use slai.Packages.Form.{
  PackageForm, sort_order_regex, validate_form, input, or_null, input_at, form_to_input,
  price_error,
}

-- Digits, with a minus sign before them or not.
abbrev pub IsWhole : Str → Type 0
IsWhole s =
    (sign : Str) × (digits : Str) × (s ≡ sign ++ digits)
    × ((sign ≡ []) ⊎ (sign ≡ b'-' ∷ []))
    × (digits ≢ [])
    × (all is_digit digits ≡ true)

-- What a form must be to be saved, without the code's patterns: `IsAmount k` is digits with at
-- most k decimals.
pub record IsValid (form : PackageForm) : Type 0 where
  pub named : trim form.name ≢ []
  pub priced_in : trim form.currency ≢ []
  pub credits :
      (w : Str) × (f : Str) × IsAmount 6 (trim form.credit_units) w f
      × (0 < of_digits w * 1000000 + of_digits (pad_end 6 b'0' f))
  pub bonus : (w : Str) × (f : Str) × IsAmount 6 (trim form.bonus_credit_units) w f
  pub price :
      (w : Str) × (f : Str) × IsAmount 2 (trim form.price) w f
      × (of_digits w * 100 + cents f ≤ max_safe_integer)
  pub ordered : IsWhole (trim form.sort_order)

truthy_iff : (s : Str) → (truthy s ≡ true) ↔ (s ≢ [])
truthy_iff [] = (λ h. cc, λ h. absurd (h refl))
truthy_iff (c ∷ s) = (λ _ h. cc, λ _. refl)

price_error-none : (p : ParsedMoney) → price_error p ≡ none → (m : ℕ) × (p ≡ ok m)
price_error-none (ok m) h = (m, refl)
price_error-none (fail e) h = cc

-- The Boolean tests of the form.
abbrev AllTests : PackageForm → Type 0
AllTests form =
    (truthy (trim form.name) ≡ true)
    × (truthy (trim form.currency) ≡ true)
    × (is_credit_amount_string form.credit_units ≡ true)
    × (0 < credit_millionths form.credit_units)
    × (is_credit_amount_string form.bonus_credit_units ≡ true)
    × (price_error (parse_money_to_minor form.price) ≡ none)
    × (test sort_order_regex (trim form.sort_order) ≡ true)

at_most_zero_iff : (n : ℕ) → (is_at_most_zero (of_millionths n) ≡ false) ↔ (0 < n)
unfolding of_millionths
at_most_zero_iff n = (λ h. to n h, λ h. from n h)
  where
    to : (n : ℕ) → is_at_most_zero (of_millionths n) ≡ false → 0 < n
    to n h = ground (arith, exact-large)

    from : (n : ℕ) → 0 < n → is_at_most_zero (of_millionths n) ≡ false
    from n h = ground arith

not_below_zero : (n : ℕ) → is_below_zero (of_millionths n) ≡ false
unfolding of_millionths
not_below_zero n = ground arith

valid→AllTests : (form : PackageForm) → (validate_form form).1 ≡ true → AllTests form
unfolding validate_form credit_number
valid→AllTests form h = ground (arith, at_most_zero_iff (credit_millionths form.credit_units))

AllTests→valid : (form : PackageForm) → AllTests form → (validate_form form).1 ≡ true
unfolding validate_form credit_number
AllTests→valid form h = ground (
  arith,
  at_most_zero_iff (credit_millionths form.credit_units),
  not_below_zero (credit_millionths form.bonus_credit_units),
)

sort_order_regex-IsWhole : (s : Str) → (test sort_order_regex s ≡ true) ↔ IsWhole s
sort_order_regex-IsWhole s = (λ h. to ((test_iff sort_order_regex s).0 h), λ h. from h)
  where
    to : Lang sort_order_regex s → IsWhole s
    to (a, b, e, inl ea, hb) =
        let (n, d) = (Lang-plus_unit_iff is_digit b).0 hb in (a, b, e, inl ea, n, d)
    to (a, b, e, inr (c, is_minus, ea), hb) =
        let (n, d) = (Lang-plus_unit_iff is_digit b).0 hb in
        (a, b, e, inr (ea ∙ ap (λ x. x ∷ []) ((==_iff c b'-').0 is_minus)), n, d)

    from : IsWhole s → test sort_order_regex s ≡ true
    from (a, b, e, inl ea, n, d) =
        (test_iff sort_order_regex s).1 (a, b, e, inl ea, (Lang-plus_unit_iff is_digit b).1 (n, d))
    from (a, b, e, inr ea, n, d) =
        (test_iff sort_order_regex s).1
          (a, b, e, inr (b'-', refl, ea), (Lang-plus_unit_iff is_digit b).1 (n, d))

-- Validation accepts a form exactly if, white space around each text apart, there is a name and a
-- currency, the credits and the bonus are digits with at most six decimals and the credits are more
-- than zero, the price is digits with at most two decimals and at most 2^53 - 1 hundredths, and the
-- sort order is digits with or without a minus sign.
pub validate_form_iff : (form : PackageForm) → ((validate_form form).1 ≡ true) ↔ IsValid form
unfolding is_credit_amount_string
validate_form_iff form = (to, from)
  where
    to : (validate_form form).1 ≡ true → IsValid form
    to h =
        let (n, c, a, p, b, m, o) = valid→AllTests form h in
        let (minor, parsed) = price_error-none (parse_money_to_minor form.price) m in
        let (pw, pf, pa, same, safe) = (parse_money_iff form.price minor).0 parsed in
        let (w, f, amount) = test-amount→IsAmount 5 (trim form.credit_units) a in
        record {
          named = (truthy_iff _).0 n;
          priced_in = (truthy_iff _).0 c;
          credits =
              (w, f, amount, rw⁻¹ (credit_millionths-of_amount form.credit_units w f amount) p);
          bonus = test-amount→IsAmount 5 (trim form.bonus_credit_units) b;
          price = (pw, pf, pa, omega arith);
          ordered = (sort_order_regex-IsWhole _).0 o;
        }

    from : IsValid form → (validate_form form).1 ≡ true
    from v =
        let (w, f, amount, some_credits) = v.credits in
        let (bw, bf, bonus) = v.bonus in
        let (pw, pf, price, safe) = v.price in
        AllTests→valid form (
          (truthy_iff _).1 v.named,
          (truthy_iff _).1 v.priced_in,
          IsAmount→test 5 _ _ _ amount,
          rw (credit_millionths-of_amount form.credit_units w f amount) some_credits,
          IsAmount→test 5 _ _ _ bonus,
          ap price_error (
              (parse_money_iff form.price (of_digits pw * 100 + cents pf)).1
                (pw, pf, price, refl, safe)),
          (sort_order_regex-IsWhole _).1 v.ordered,
        )

module _ (to_upper_case : Str → Str) where
  -- A valid form is converted and never throws: what is sent has a name, a price that is a safe
  -- integer, and more than no credits unless their number is infinite.
  pub valid-form_to_input :
      (form : PackageForm)
      → (validate_form form).1 ≡ true
      → (i : PackageInput CreditNumber) × (form_to_input to_upper_case form ≡ input i)
        × (i.name ≢ [])
        × (i.price_minor ≤ max_safe_integer)
        × (((scale_package_input i).credit_units ≢ some 0)
            ⊎ (credit_number form.credit_units ≡ not_finite))
  unfolding form_to_input scale_package_input credit_number
  valid-form_to_input form h =
      let (n, c, a, positive, b, p, o) = valid→AllTests form h in
      let (m, e) = price_error-none (parse_money_to_minor form.price) p in
      let (w, f, amount, same, safe) = (parse_money_iff form.price m).0 e in
      (
        _,
        ap (input_at to_upper_case form) e,
        (truthy_iff _).0 n,
        safe,
        to_stored-positive (credit_millionths form.credit_units) positive,
      )

-- A package as the API stores one: its texts are trimmed, and its numbers are small enough for
-- doubles: at most 10^15 credit units of each kind, and a price of at most 2^46 * 100 minor units.
pub record IsStored (to_upper_case : Str → Str) (pkg : CreditPackage) : Type 0 where
  pub name_trimmed : trim pkg.name ≡ pkg.name
  pub named : pkg.name ≢ []
  pub description_trimmed : or_null (trim (or_empty pkg.description)) ≡ pkg.description
  pub currency_trimmed : trim pkg.currency ≡ pkg.currency
  pub currency_upper : to_upper_case pkg.currency ≡ pkg.currency
  pub priced_in : pkg.currency ≢ []
  pub some_credits : 0 < pkg.credit_units
  pub exact_credits : pkg.credit_units ≤ exact_units
  pub exact_bonus : pkg.bonus_credit_units ≤ exact_units
  pub exact_price : pkg.price_minor ≤ exact_minor

-- The input that changes nothing.
abbrev pub same_package : CreditPackage → PackageInput Units
same_package pkg = record {
  name = pkg.name;
  description = pkg.description;
  credit_units = some pkg.credit_units;
  bonus_credit_units = some pkg.bonus_credit_units;
  price_minor = pkg.price_minor;
  currency = pkg.currency;
  active = some pkg.active;
  sort_order = pkg.sort_order;
}

abbrev pub unscaled : CreditPackage → PackageInput CreditNumber
unscaled pkg = record {
  name = pkg.name;
  description = pkg.description;
  credit_units = finite pkg.credit_units;
  bonus_credit_units = finite pkg.bonus_credit_units;
  price_minor = pkg.price_minor;
  currency = pkg.currency;
  active = some pkg.active;
  sort_order = pkg.sort_order;
}

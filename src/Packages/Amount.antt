-- ===== src/Packages/Amount.antt =====
-- Decimal amounts as the package form takes them: the two patterns `/^\d+(\.\d{1,2})?$/` and
-- `/^\d+(\.\d{1,6})?$/` of apps/web/src/app/admin/packages/page.tsx.
pub mod Laws
use slai.Base.{ℕ, ◌==◌, Bool, true, false, List, [], ◌∷◌, ◌++◌}
use slai.Text.{Str, is_digit, trim}
use slai.Text.Regex.{Regex, unit, seq, plus, opt, up_to, test}

abbrev pub point : ℕ
point = b'.'

-- A whole part, and a point with 1 to k + 1 digits, or neither.
abbrev pub amount : ℕ → Regex
amount k =
    seq (plus (unit is_digit))
      (opt (seq (unit (λ c. c == point)) (seq (unit is_digit) (up_to k (unit is_digit)))))

abbrev pub money_regex : Regex
money_regex = amount 1

abbrev pub credit_regex : Regex
credit_regex = amount 5

unfoldable pub is_credit_amount_string : Str → Bool
is_credit_amount_string value = test credit_regex (trim value)

-- A whole part and a fraction as they are written; no fraction, no point.
abbrev pub written : Str → Str → Str
written w [] = w
written w (c ∷ f) = w ++ point ∷ c ∷ f

-- ===== src/Tests/Packages.antt =====
-- The admin's packages on examples.
use slai.Base.{◌≤◌, ◌≡◌, ◌↔◌, refl, ◌+◌, ◌*◌, true, false, [], ◌∷◌, none, some, codes, arith}
use slai.Text.{Str, trim}
use slai.Text.Decimal.{of_digits, split, pad_end}
use slai.Text.Regex.{test}
use slai.Packages.Amount.{is_credit_amount_string}
use slai.Packages.{negsuc, CreditPackage}
use slai.Packages.Amount.Laws.{IsAmount}
use slai.Packages.Money.{ok, parse_money_to_minor, minor_to_money, max_safe_integer}
use slai.Packages.Money.Laws.{parse_money_iff, parse-minor_to_money, cents}
use slai.Packages.Credits.{credit_millionths, of_millionths, credit_number, infinity_from}
use slai.Packages.Form.{PackageForm, validate_form}
use slai.Packages.Form.Laws.{IsValid, validate_form_iff}
use slai.Packages.Page.{Page, edit, every}

abbrev starter : CreditPackage
starter = record {
  id = codes "pkg_1";
  name = codes "Starter";
  description = some (codes "For a first try");
  credit_units = 1500000;
  bonus_credit_units = 250000;
  price_minor = 999;
  currency = codes "USD";
  active = true;
  sort_order = negsuc 1;
  created_at = codes "2025-01-01";
  updated_at = codes "2025-01-02";
}

-- Upper case on the examples, which have it already.
abbrev keep_case : Str → Str
keep_case s = s

abbrev starter_form : PackageForm
starter_form = record {
  name = codes " Starter ";
  description = [];
  credit_units = codes "1.5";
  bonus_credit_units = codes "0";
  price = codes "9.99";
  currency = codes "USD";
  active = true;
  sort_order = codes "-2";
}

starter_form-valid : (validate_form starter_form).1 ≡ true
unfolding validate_form trim is_credit_amount_string test credit_millionths of_millionths
    credit_number infinity_from of_digits split pad_end parse_money_to_minor
starter_form-valid = refl

abbrev starter_page : Page
starter_page = record {
  packages = starter ∷ [];
  form = starter_form;
  panel = some (edit starter);
  status_filter = every;
  search = [];
  loading = false;
  action_loading = false;
  active_action_id = none;
  error = none;
  form_error = none;
  field_errors = (validate_form starter_form).0;
  notice = none;
}

validate_form_iff_example : ((validate_form starter_form).1 ≡ true) ↔ IsValid starter_form
validate_form_iff_example = validate_form_iff starter_form

parse_money_iff_example : (parse_money_to_minor (codes " 9.9 ") ≡ ok 990) ↔ (
    (w : Str) × (f : Str) × IsAmount 2 (trim (codes " 9.9 ")) w f
    × (990 ≡ of_digits w * 100 + cents f)
    × (990 ≤ max_safe_integer))
parse_money_iff_example = parse_money_iff (codes " 9.9 ") 990

parse-minor_to_money_example : parse_money_to_minor (minor_to_money 1005) ≡ ok 1005
parse-minor_to_money_example = parse-minor_to_money 1005 (omega arith)

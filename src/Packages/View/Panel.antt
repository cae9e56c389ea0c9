-- ===== src/Packages/View/Panel.antt =====
-- `PackagePanel` and `DeveloperPreview` of apps/web/src/app/admin/packages/page.tsx.
use slai.Base.{
  ℕ, ◌+◌, ltb, Bool, false, not, ◌||◌, [], ◌∷◌, ◌++◌, Option, none, some, String, codes,
  if◌then◌else◌,
}
use slai.Text.{Str, trim}
use slai.Badge.{BadgeTone}
use slai.Markup.{Nodes, text, say, badge, field, input, button, when, Formats}
use slai.Packages.Money.{ParsedMoney, ok, fail, parse_money_to_minor}
use slai.Packages.Form.{PackageForm, FieldErrors, validate_form}
use slai.Packages.Page as P

pub data Click : Type 0 where
  typed : (label : String) → Click
  close save flip_active : Click

-- `Number` of a field's text, in millionths.
pub data FormNumber : Type 0 where
  at_least_zero : (millionths : ℕ) → FormNumber
  below_zero not_finite : FormNumber

unfoldable pub safe_positive_number : FormNumber → ℕ
safe_positive_number (at_least_zero n) = n
safe_positive_number below_zero = 0
safe_positive_number not_finite = 0

-- `error ? error : hint ? hint : null`
abbrev pub below_input : (error hint : Option String) → Nodes Click
below_input (some error) hint = say error ∷ []
below_input none (some hint) = say hint ∷ []
below_input none none = []

unfoldable pub form_input :
    (error hint : Option String) (label : String) (value : Str) → Nodes Click
form_input error hint label value =
    input (codes label) value false (some (typed label)) ∷ below_input error hint

abbrev section : (title description : String) → Nodes Click
section title description = say title ∷ say description ∷ []

abbrev price_minor : ParsedMoney → Option ℕ
price_minor (ok minor) = some minor
price_minor (fail error) = none

abbrev or_text : Str → Str → Str
or_text [] fallback = fallback
or_text (c ∷ s) fallback = c ∷ s

abbrev heading : P.Panel → String
heading P.create = "Create package"
heading (P.edit pkg) = "Edit package"

abbrev save_label : P.Panel → Str
save_label P.create = codes "Create package"
save_label (P.edit pkg) = codes "Save changes"

abbrev or_0 : Option ℕ → ℕ
or_0 none = 0
or_0 (some n) = n

-- `number` is `Number`, `format_form_credits` its format, and `to_upper_case` that of texts.
module _ (formats : Formats) (format_money : ℕ → Str → Str) (number : Str → FormNumber)
    (format_form_credits : ℕ → Str) (to_upper_case : Str → Str) where
  abbrev price_line : Option ℕ → Str
  price_line none = codes "Enter a valid price using up to two decimals."
  price_line (some minor) =
      codes "Will be stored as " ++ formats.format_units minor ++ codes " minor units."

  unfoldable pub credits_line : (included bonus : ℕ) → Str
  credits_line included bonus =
      if ltb 0 bonus
      then codes "Total developer credits: "
        ++ format_form_credits (included + bonus)
        ++ codes " including "
        ++ format_form_credits bonus
        ++ codes " bonus."
      else codes "Total developer credits: " ++ format_form_credits (included + bonus) ++ codes "."

  unfoldable pub developer_preview :
      (active : Bool) (bonus included : ℕ) (currency name : Str) (price : ℕ) → Nodes Click
  developer_preview active bonus included currency name price =
      say "Developer preview"
        ∷ text name
        ∷ badge (if active then BadgeTone.green else BadgeTone.yellow)
            (codes (if active then "Active" else "Inactive"))
        ∷ field (codes "Package price") (format_money price currency)
        ∷ field (codes "Credits") (format_form_credits included)
        ∷ when (ltb 0 bonus) (text (codes "+ " ++ format_form_credits bonus ++ codes " bonus") ∷ [])
      ++ say "This is how the package summary will appear to users." ∷ []

  unfoldable pub fields_view : (errors : FieldErrors) → PackageForm → Nodes Click
  unfolding form_input credits_line safe_positive_number
  fields_view errors form =
      section "Package details" "Shown to developers on pricing and billing screens."
      ++ form_input errors.name none "Name" form.name
      ++ form_input none (some "Shown to developers on pricing and billing screens.") "Description"
          form.description
      ++ section "Pricing" "Price is entered as normal money and stored as integer minor units."
      ++ form_input errors.price (some "Stored as minor units internally.") "Price" form.price
      ++ form_input errors.currency none "Currency" form.currency
      ++ text (price_line (price_minor (parse_money_to_minor form.price)))
        ∷ section "Credits" "Define the included balance and any bonus credit units."
      ++ form_input errors.credit_units none "Included credits" form.credit_units
      ++ form_input errors.bonus_credit_units none "Bonus credits" form.bonus_credit_units
      ++ text (
          credits_line (safe_positive_number (number form.credit_units))
            (safe_positive_number (number form.bonus_credit_units)))
        ∷ section "Visibility" "Control whether developers can see this package."
      ++ button (codes "Active package") false flip_active
        ∷ section "Ordering" "Lower numbers appear first."
      ++ form_input errors.sort_order (some "Lower numbers appear first.") "Sort order"
          form.sort_order

  -- Saving takes the form's own check, not the errors that are shown.
  unfoldable pub buttons : P.Panel → (loading : Bool) → PackageForm → Nodes Click
  buttons panel loading form =
      button (if loading then codes "Saving" else save_label panel)
        (loading || not (validate_form form).1) save
      ∷ button (codes "Cancel") loading close
      ∷ []

  unfoldable pub package_panel :
      P.Panel
      → (form_error : Option String) (errors : FieldErrors) (loading : Bool) → PackageForm
      → Nodes Click
  unfolding safe_positive_number trim
  package_panel panel form_error errors loading form =
      say (heading panel)
        ∷ say "Configure prepaid credits, pricing, and visibility."
        ∷ button (codes "Cancel") false close
        ∷ below_input form_error none
      ++ fields_view errors form
      ++ developer_preview form.active (safe_positive_number (number form.bonus_credit_units))
          (safe_positive_number (number form.credit_units))
          (or_text (to_upper_case (trim form.currency)) (codes "USD"))
          (or_text (trim form.name) (codes "Untitled package"))
          (or_0 (price_minor (parse_money_to_minor form.price)))
      ++ buttons panel loading form

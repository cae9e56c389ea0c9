-- ===== src/Packages/View/Laws.antt =====
-- When the panel of a package can be saved.
use slai.Base.{ℕ, ◌≡◌, refl, Bool, false, not, ◌&&◌, ◌||◌, Option, none, some, String, arith}
use slai.Text.{Str}
use slai.Markup.{Formats, has, sends}
use slai.Markup.Laws.{has-append}
use slai.Packages.Form.{PackageForm, FieldErrors, validate_form}
use slai.Packages.Page as P
use slai.Packages.View.Panel.{
  Click, typed, close, save, flip_active, FormNumber, below_input, form_input, fields_view,
  developer_preview, buttons, package_panel,
}

-- The fields of the form.
abbrev pub changes_form : (Click → Bool) → Bool
changes_form p =
    p (typed "Name")
    || p (typed "Description")
    || p (typed "Price")
    || p (typed "Currency")
    || p (typed "Included credits")
    || p (typed "Bonus credits")
    || p flip_active
    || p (typed "Sort order")

module _ (p : Click → Bool) where
  offers-below_input : (error hint : Option String) → has (sends p) (below_input error hint) ≡ false
  unfolding has
  offers-below_input (some e) hint = refl
  offers-below_input none (some h) = refl
  offers-below_input none none = refl

  offers-form_input :
      (error hint : Option String) (label : String) (value : Str)
      → has (sends p) (form_input error hint label value) ≡ p (typed label)
  unfolding has form_input
  offers-form_input error hint label value = ground (arith, offers-below_input error hint)

  module _ (formats : Formats) (format_money : ℕ → Str → Str) (number : Str → FormNumber)
      (format_form_credits : ℕ → Str) (to_upper_case : Str → Str) where
    offers-buttons :
        (panel : P.Panel) (loading : Bool) (form : PackageForm)
        → has (sends p) (
            buttons formats format_money number format_form_credits to_upper_case panel loading
              form)
          ≡ ((not loading && (validate_form form).1 && p save) || (not loading && p close))
    unfolding has buttons
    offers-buttons panel loading form = ground arith

    offers-developer_preview :
        (active : Bool) (bonus included : ℕ) (currency name : Str) (price : ℕ)
        → has (sends p) (
            developer_preview formats format_money number format_form_credits to_upper_case active
              bonus included currency name price)
          ≡ false
    unfolding has developer_preview
    offers-developer_preview active bonus included currency name price = ground arith

    offers-fields_view :
        (errors : FieldErrors) (form : PackageForm)
        → has
            (sends p)
            (fields_view formats format_money number format_form_credits to_upper_case errors form)
          ≡ changes_form p
    unfolding has fields_view
    offers-fields_view errors form = simp (has-append, offers-form_input) (ground arith)

    -- The buttons and fields that can be used in the panel of a package are exactly: closing it,
    -- changing each field of the form, its visibility included, and saving it, where no save runs
    -- and the form, as it is now, has no error.
    pub has-package_panel :
        (panel : P.Panel) (error : Option String) (errors : FieldErrors) (loading : Bool)
        (form : PackageForm)
        → has (sends p) (
            package_panel formats format_money number format_form_credits to_upper_case panel error
              errors loading form)
          ≡ (p close || changes_form p || (not loading && (validate_form form).1 && p save))
    unfolding has package_panel
    has-package_panel panel error errors loading form =
        simp
          (
            has-append, offers-below_input, offers-fields_view, offers-developer_preview,
            offers-buttons,
          )
          (ground arith)

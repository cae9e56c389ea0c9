-- ===== src/Packages/View.antt =====
-- What `AdminPackagesPage` shows: apps/web/src/app/admin/packages/page.tsx from its return on,
-- with its catalog, and the panel of the form in a child module.
pub mod Panel
pub mod Laws
use slai.Base.{
  ℕ, ◌+◌, ltb, Bool, true, false, not, ◌&&◌, ◌||◌, List, [], ◌∷◌, ◌++◌, Option, none, some, String,
  codes, if◌then◌else◌, length,
}
use slai.Text.{Str, truthy, equals, is_empty}
use slai.Badge.{BadgeTone}
use slai.Markup.{Node, Nodes, text, say, badge, field, input, button, when, given, each, Formats}
use slai.Markup.Parts.{loading_state, error_state}
use slai.Packages.{CreditPackage}
use slai.Packages.Form.{to_string}
use slai.Packages.Page.{Page, StatusFilter, every, active, inactive}
use slai.Packages.Shown.{visible_packages, Summary, summary}

pub data Click : Type 0 where
  typed : (label : String) → Click
  create refresh retry : Click
  filter : StatusFilter → Click
  edit toggle : CreditPackage → Click

unfoldable pub empty_state : (has_packages : Bool) → Nodes Click
empty_state true =
    say "No packages match filters"
    ∷ say "Adjust search or status filters to see more packages."
    ∷ []
empty_state false =
    say "No packages yet"
    ∷ say "Create your first prepaid credit bundle for developers."
    ∷ button (codes "Create package") false create
    ∷ []

-- `description || "No description"`
abbrev description_or : Option Str → Str
description_or none = codes "No description"
description_or (some s) = if truthy s then s else codes "No description"

-- `activeActionId === pkg.id`
abbrev pub is_toggled : (active_action_id : Option Str) → CreditPackage → Bool
is_toggled none pkg = false
is_toggled (some id) pkg = equals id pkg.id

-- Dates and currencies come as code units here; `average` is the average price, a rounded quotient
-- of doubles, of packages in one currency.
module _ (formats : Formats) (format_money : ℕ → Str → Str) (format_date_time : Str → Str)
    (average : List CreditPackage → Option ℕ) (to_lower_case : Str → Str) where
  abbrev average_text : Option ℕ → Option Str → Str
  average_text (some price) (some currency) = format_money price currency
  average_text none currency = codes "Mixed"
  average_text (some price) none = codes "Mixed"

  abbrev summary_card : (label : String) (value : Str) (hint : String) → Nodes Click
  summary_card label value hint = field (codes label) value ∷ say hint ∷ []

  unfoldable pub header : Page → Nodes Click
  header s =
      say "Admin packages"
      ∷ say "Credit packages"
      ∷ say "Manage prepaid credit bundles shown to developers."
      ∷ button (codes "Create package") false create
      ∷ button (codes "Refresh") s.loading refresh
      ∷ []

  unfoldable pub summary_cards : List CreditPackage → Nodes Click
  unfolding summary
  summary_cards packages =
      let sums = summary packages in
      summary_card "Total packages" (formats.format_units (length packages)) "Admin catalog"
      ++ summary_card "Active" (formats.format_units sums.active) "Visible to developers"
      ++ summary_card "Inactive" (formats.format_units sums.inactive) "Hidden from public list"
      ++ summary_card "Credits offered" (formats.format_compact_credits sums.total_credits)
          "Included plus bonus"
      ++ summary_card "Average price" (average_text (average packages) sums.currency)
          (if sums.has_single_currency then "Across loaded packages" else "Multiple currencies")

  -- A row of the table, with the id of the package that is being activated or deactivated.
  unfoldable pub row : (active_action_id : Option Str) → CreditPackage → Nodes Click
  unfolding to_string
  row active_action_id pkg =
      text pkg.name
      ∷ text (description_or pkg.description)
      ∷ text (
          formats.format_compact_credits pkg.credit_units
          ++ codes " + "
          ++ formats.format_compact_credits pkg.bonus_credit_units
          ++ codes " bonus")
      ∷ text (
          formats.format_compact_credits (pkg.credit_units + pkg.bonus_credit_units)
          ++ codes " total")
      ∷ text (format_money pkg.price_minor pkg.currency)
      ∷ badge (if pkg.active then BadgeTone.green else BadgeTone.yellow)
          (codes (if pkg.active then "Active" else "Inactive"))
      ∷ text (to_string pkg.sort_order)
      ∷ text (format_date_time pkg.updated_at)
      ∷ text (codes "Created " ++ format_date_time pkg.created_at)
      ∷ button (codes "Edit") false (edit pkg)
      ∷ button (codes (if pkg.active then "Deactivate" else "Activate"))
          (is_toggled active_action_id pkg) (toggle pkg)
      ∷ []

  unfoldable pub catalog : Page → List CreditPackage → Nodes Click
  catalog s [] = empty_state (not (is_empty s.packages))
  catalog s (pkg ∷ packages) = each (row s.active_action_id) (pkg ∷ packages)

  unfoldable pub filter_bar : Page → Nodes Click
  filter_bar s =
      say "Package catalog"
      ∷ say "Active packages are returned by the public packages endpoint."
      ∷ input (codes "Search") s.search false (some (typed "Search"))
      ∷ button (codes "all") false (filter every)
      ∷ button (codes "active") false (filter active)
      ∷ button (codes "inactive") false (filter inactive)
      ∷ []

  -- The page behind its panel.
  unfoldable pub view : Page → Nodes Click
  unfolding loading_state error_state visible_packages
  view s =
      header s
      ++ summary_cards s.packages
      ++ given s.error (λ message. error_state message (some retry))
      ++ given s.notice (λ notice. say notice ∷ [])
      ++ filter_bar s
      ++ when s.loading (loading_state "Loading packages")
      ++ when (not s.loading)
          (catalog s (visible_packages to_lower_case s.search s.status_filter s.packages))

-- ===== src/AdminPayments/View.antt =====
-- What `AdminPaymentsPage` shows around its drawer: apps/web/src/app/admin/payments/page.tsx from
-- its return on. The choices of the status list are left out.
use slai.Base.{
  ℕ, ◌+◌, ltb, leb, ◌==◌, Bool, true, false, not, ◌&&◌, ◌||◌, List, [], ◌∷◌, ◌++◌, Option, none,
  some, String, codes, if◌then◌else◌, str_eq, length, filter_by,
}
use slai.Text.{Str, truthy}
use slai.Text.Decimal.{to_digits}
use slai.Format.{truncate_id}
use slai.Badge.{BadgeTone}
use slai.Checkout.Status.{status_label}
use slai.Markup.{
  Node, Nodes, text, say, badge, field, input, link, button, when, given, each, text_or, Formats,
}
use slai.Markup.Parts.{loading_state, error_state}
use slai.AdminPayments.{Item, Filters, status_tone, proof_tone, summary}
use slai.AdminPayments.Drawer.{badge_tone}
use slai.AdminPayments.Page.{Payments}

pub data Click : Type 0 where
  typed : (label : String) → Click
  refresh retry apply clear previous next : Click
  quick : (status : String) → Click
  select : Item → Click

abbrev pub is_in_review : Item → Bool
is_in_review item = str_eq item.status "pending_review" || str_eq item.status "needs_review"

unfoldable pub pending_review_count : List Item → ℕ
pending_review_count items = length (filter_by is_in_review items)

-- `JSON.stringify(appliedFilters) !== JSON.stringify(defaultFilters)`: all of the defaults are
-- empty.
unfoldable pub filters_active : Filters → Bool
filters_active f =
    truthy f.status || truthy f.user_id || truthy f.provider || truthy f.from || truthy f.to

abbrev quick_button : String → String → Node Click
quick_button status label = button (codes label) false (quick status)

unfoldable pub filter_bar : Filters → (error : Option String) (loading : Bool) → Nodes Click
filter_bar f error loading =
    quick_button "review_queue" "Review queue"
    ∷ quick_button "needs_review" "Needs review"
    ∷ quick_button "pending_review" "Pending review"
    ∷ quick_button "paid" "Paid"
    ∷ quick_button "rejected" "Rejected"
    ∷ input (codes "Status") f.status false (some (typed "Status"))
    ∷ input (codes "User ID") f.user_id false (some (typed "User ID"))
    ∷ input (codes "Provider") f.provider false (some (typed "Provider"))
    ∷ input (codes "From") f.from false (some (typed "From"))
    ∷ input (codes "To") f.to false (some (typed "To"))
    ∷ button (codes "Apply") loading apply
    ∷ button (codes "Clear") loading clear
    ∷ given error (λ message. say message ∷ [])

unfoldable pub empty_table : (filters_active : Bool) → Nodes Click
empty_table true =
    say "No payments match these filters"
    ∷ say "Try clearing filters or expanding the date range."
    ∷ button (codes "Clear filters") false clear
    ∷ []
empty_table false =
    say "No payments"
    ∷ say "Bakong KHQR checkout submissions will appear here."
    ∷ link (codes "/admin/settings/payments") (codes "Open payment settings")
    ∷ []

abbrev proof_text : Item → String
proof_text item =
    if item.proof_uploaded
    then (if ltb 0 item.duplicate_proof_count then "Duplicate" else "Uploaded")
    else "Missing"

abbrev first : Option Str → Option Str → Option Str
first none other = other
first (some s) other = some s

-- `adminPaymentReference ?? providerTransactionId ?? checkoutReference ?? providerRef`
abbrev reference_of : Item → Option Str
reference_of item =
    first item.admin_payment_reference
      (first item.provider_transaction_id (first item.checkout_reference item.provider_ref))

abbrev provider_line : Option String → Nodes Click
provider_line none = []
provider_line (some status) =
    when (not (str_eq status "")) (text (codes "Provider: " ++ codes status) ∷ [])

unfoldable pub paging_text : (offset count total : ℕ) → Str
paging_text offset count total =
    if total == 0
    then codes "No payments"
    else codes "Showing "
      ++ to_digits (offset + 1)
      ++ codes "-"
      ++ to_digits (offset + count)
      ++ codes " of "
      ++ to_digits total

unfoldable pub paging : (offset count total : ℕ) (loading : Bool) → Nodes Click
unfolding paging_text
paging offset count total loading =
    text (paging_text offset count total)
    ∷ button (codes "Previous") (offset == 0 || loading) previous
    ∷ button (codes "Next") (leb total (offset + count) || loading) next
    ∷ []

module _ (formats : Formats) where
  unfoldable pub header : Payments → Nodes Click
  unfolding pending_review_count
  header s =
      say "Payment review"
        ∷ when (ltb 0 (pending_review_count s.items)) (
            badge BadgeTone.yellow
              (formats.format_units (pending_review_count s.items) ++ codes " need review")
            ∷ [])
      ++ say "Payments"
        ∷ say "Monitor Bakong KHQR checkouts, proof uploads, and admin-reviewed credits."
        ∷ button (codes "Refresh") s.loading refresh
        ∷ link (codes "/admin/settings/payments") (codes "Payment settings")
        ∷ []

  abbrev summary_card : String → Str → Nodes Click
  summary_card label value = field (codes label) value ∷ say "Current result page" ∷ say "Live" ∷ []

  unfoldable pub summary_cards : List Item → Nodes Click
  unfolding summary
  summary_cards items =
      summary_card "Pending review" (formats.format_units (summary items).pending)
      ++ summary_card "Paid" (formats.format_units (summary items).paid)
      ++ summary_card "Rejected" (formats.format_units (summary items).rejected)
      ++ summary_card "Paid amount" (formats.format_money (summary items).paid_minor "USD")

  unfoldable pub row : Item → Nodes Click
  unfolding truncate_id status_tone status_label proof_tone
  row item =
      text (formats.format_date_time (some item.created_at))
        ∷ say item.user_email
        ∷ text (truncate_id (some item.user_id) 8 4)
        ∷ text (text_or item.package_name "Manual package")
        ∷ text (formats.format_money item.amount_minor item.currency)
        ∷ text (formats.format_credits item.credit_units)
        ∷ badge (badge_tone (status_tone item.status)) (status_label (codes item.status))
        ∷ provider_line item.provider_status
      ++ badge (badge_tone (proof_tone item)) (codes (proof_text item))
        ∷ text (truncate_id (reference_of item) 10 4)
        ∷ button (codes (if is_in_review item then "Review" else "View")) false (select item)
        ∷ []

  unfoldable pub payments_table : (filters_active : Bool) → List Item → Nodes Click
  unfolding empty_table row
  payments_table active [] = empty_table active
  payments_table active (item ∷ items) = each row (item ∷ items)

  abbrev is_none {ℓ} : {A : Type ℓ} → Option A → Bool
  is_none none = true
  is_none (some _) = false

  unfoldable pub view : Payments → Nodes Click
  unfolding loading_state error_state
  view s =
      header s
      ++ summary_cards s.items
      ++ say "Manual verification required"
        ∷ say
            "Verify the payment in Bakong before approving. Enter the verified payment reference to prevent duplicate or reused proofs."
        ∷ link (codes "/admin/settings/payments") (codes "Payment settings")
        ∷ filter_bar s.draft_filters s.filter_error s.loading
      ++ when s.loading (loading_state "Loading payments")
      ++ given s.error (λ message. error_state message (some retry))
      ++ when (not s.loading && is_none s.error) (
          payments_table (filters_active s.applied_filters) s.items
          ++ paging s.offset (length s.items) s.total s.loading)

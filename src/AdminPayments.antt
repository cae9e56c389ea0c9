-- ===== src/AdminPayments.antt =====
-- The admin's payments, apps/web/src/app/admin/payments/page.tsx: the helpers before
-- `AdminPaymentsPage` and the guards of `PaymentDrawer`. Dates are read by the browser, which a
-- `Calendar` stands for.
pub mod Laws
pub mod Page
pub mod Drawer
pub mod View
use slai.Base.{
  ℕ, ◌+◌, ltb, Bool, true, false, not, ◌&&◌, ◌||◌, List, [], ◌∷◌, Option, none, some, String,
  if◌then◌else◌, str_eq, length, filter_by,
}
use slai.Text.{Str, trim, truthy, if_truthy}
use slai.Dates.{Calendar}

-- `PaymentProof`
pub record Proof : Type 0 where
  pub file_name : Str
  pub file_mime : Str
  pub file_size : ℕ
  pub user_transaction_ref : Option String
  pub user_note : Option String
  pub uploaded_at : String

-- The fields of `AdminPaymentItem` that the page reads.
pub record Item : Type 0 where
  pub id : String
  pub user_id : Str
  pub user_email : String
  pub package_name : Option String
  pub provider : String
  pub provider_ref : Option Str
  pub checkout_reference : Option Str
  pub provider_status : Option String
  pub provider_transaction_id : Option Str
  pub amount_minor : ℕ
  pub currency : String
  pub credit_units : ℕ
  pub status : String
  pub created_at : String
  pub paid_at : Option String
  pub proof_uploaded : Bool
  pub proof_file_sha256 : Option Str
  pub duplicate_proof_count : ℕ
  pub reviewed_by_admin_email : Option String
  pub reviewed_at : Option String
  pub admin_payment_reference : Option Str
  pub rejection_reason : Option String
  pub proof : Option Proof

pub data BadgeTone : Type 0 where
  neutral green red yellow blue : BadgeTone

unfoldable pub status_tone : String → BadgeTone
status_tone status =
    if str_eq status "paid"
    then green
    else if str_eq status "pending_review"
    then yellow
    else if str_eq status "pending_payment"
    then blue
    else if str_eq status "pending_proof"
    then blue
    else if str_eq status "rejected"
    then red
    else if str_eq status "cancelled"
    then neutral
    else if str_eq status "expired"
    then yellow
    else if str_eq status "needs_review"
    then red
    else neutral

unfoldable pub proof_tone : Item → BadgeTone
proof_tone payment =
    if ltb 0 payment.duplicate_proof_count
    then yellow
    else if payment.proof_uploaded
    then green
    else neutral

unfoldable pub format_provider : String → String
format_provider provider =
    if str_eq provider "bakong_khqr"
    then "Bakong KHQR"
    else if str_eq provider "manual"
    then "Manual"
    else if str_eq provider ""
    then "-"
    else provider

pub record Filters : Type 0 where
  pub status : Str
  pub user_id : Str
  pub provider : Str
  pub from : Str
  pub to : Str

abbrev pub default_filters : Filters
default_filters = record { status = []; user_id = []; provider = []; from = []; to = [] }

pub record Query : Type 0 where
  pub status : Option Str
  pub user_id : Option Str
  pub provider : Option Str
  pub from : Option Str
  pub to : Option Str
  pub limit : ℕ
  pub offset : ℕ

abbrev pub limit : ℕ
limit = 50

module _ (c : Calendar) where
  abbrev iso_of : Option (c.Time) → Option Str
  iso_of none = none
  iso_of (some t) = some (c.to_iso_string t)

  unfoldable pub to_api_iso : Str → Option Str
  to_api_iso value = if not (truthy value) then none else iso_of (c.get_time value)

  unfoldable pub to_api_filter : Filters → (offset : ℕ) → Query
  unfolding to_api_iso
  to_api_filter filters offset = record {
    status = if_truthy filters.status;
    user_id = if_truthy (trim filters.user_id);
    provider = if_truthy (trim filters.provider);
    from = to_api_iso filters.from;
    to = to_api_iso filters.to;
    limit = limit;
    offset = offset;
  }

  unfoldable pub check_range : Option (c.Time) → Option (c.Time) → Option String
  check_range none _ = some "Enter valid date filters."
  check_range (some from) none = some "Enter valid date filters."
  check_range (some from) (some to) =
      if c.later from to then some "From date must be before To date." else none

  unfoldable pub validate_date_range : Filters → Option String
  unfolding check_range
  validate_date_range filters =
      if not (truthy filters.from) || not (truthy filters.to)
      then none
      else check_range (c.get_time filters.from) (c.get_time filters.to)

unfoldable pub is_pending : Item → Bool
is_pending item =
    str_eq item.status "pending_review"
    || str_eq item.status "needs_review"
    || str_eq item.status "pending_payment"

abbrev is_paid : Item → Bool
is_paid item = str_eq item.status "paid"

unfoldable pub sum_minor : List Item → ℕ
sum_minor [] = 0
sum_minor (item ∷ items) = item.amount_minor + sum_minor items

pub record Summary : Type 0 where
  pub pending : ℕ
  pub paid : ℕ
  pub rejected : ℕ
  pub paid_minor : ℕ

unfoldable pub summary : List Item → Summary
unfolding is_pending sum_minor
summary items = record {
  pending = length (filter_by is_pending items);
  paid = length (filter_by is_paid items);
  rejected = length (filter_by (λ item. str_eq item.status "rejected") items);
  paid_minor = sum_minor (filter_by is_paid items);
}

unfoldable pub can_approve : Item → Bool
can_approve payment = str_eq payment.status "pending_review" || str_eq payment.status "needs_review"

unfoldable pub can_reject : Item → Bool
can_reject payment =
    str_eq payment.status "pending_review"
    || str_eq payment.status "pending_proof"
    || str_eq payment.status "needs_review"

-- ===== src/UserDetail/View.antt =====
-- What `AdminUserDetailPage` shows: apps/web/src/app/admin/users/[id]/page.tsx from its return on.
-- A control's question to the admin, `window.confirm`, is part of its handler.
pub mod Laws
use slai.Base.{
  ℕ, ltb, min, Bool, true, false, not, ◌&&◌, ◌||◌, List, [], ◌∷◌, ◌++◌, Option, none, some, String,
  codes, if◌then◌else◌, str_eq,
}
use slai.Text.{Str, trim, truthy}
use slai.Text.Decimal.{to_digits}
use slai.Format.{truncate_id}
use slai.Format.Ledger.{format_delta}
use slai.Badge.{BadgeTone, status_tone}
use slai.Api.User.{Role, user, admin, UserStatus, active, suspended, AuthProvider, password, google}
use slai.Api.Admin.{
  AdminKey, AdminBalance, AdminUsageEvent, AdminLedgerEntry, AdminPayment, AdminUserDetail,
}
use slai.ApiKey as K
use slai.ApiKey.View.{status_name as key_status_name}
use slai.Markup.{
  Node, Nodes, text, say, badge, field, link, button, when, either, given, each, label_if, text_or,
  Formats,
}
use slai.Markup.Parts.{loading_state, error_state, empty_state, input_field}
use slai.UserDetail.{AdjustType, credit, debit, KeyAction, suspend, resume, revoke, Page}

pub data Click : Type 0 where
  typed : (label : String) → Click
  retry submit_top_up submit_adjustment : Click
  set_status : UserStatus → Click
  act : KeyAction → Click
  choose_type : AdjustType → Click

abbrev pub status_name : UserStatus → String
status_name active = "ACTIVE"
status_name suspended = "SUSPENDED"

abbrev role_name : Role → String
role_name user = "USER"
role_name admin = "ADMIN"

abbrev provider_label : AuthProvider → String
provider_label google = "Google sign-in"
provider_label password = "Password sign-in"

abbrev pub is_active : UserStatus → Bool
is_active active = true
is_active suspended = false

abbrev pub is_key_active : K.KeyStatus → Bool
is_key_active K.active = true
is_key_active K.suspended = false
is_key_active K.revoked = false

abbrev pub is_key_suspended : K.KeyStatus → Bool
is_key_suspended K.suspended = true
is_key_suspended K.active = false
is_key_suspended K.revoked = false

abbrev pub is_key_revoked : K.KeyStatus → Bool
is_key_revoked K.revoked = true
is_key_revoked K.active = false
is_key_revoked K.suspended = false

abbrev name_badge : String → Node Click
name_badge name = badge (status_tone (some name)) (codes name)

unfoldable pub header : (action_loading : Bool) → AdminUserDetail → Nodes Click
unfolding truncate_id
header action_loading detail =
    name_badge (status_name detail.status)
    ∷ name_badge (role_name detail.role)
    ∷ badge BadgeTone.neutral (codes (provider_label detail.auth_provider))
    ∷ say detail.email
    ∷ text (codes "User ID " ++ truncate_id (some detail.id) 12 8)
    ∷ button (codes "Suspend user") (action_loading || not (is_active detail.status))
        (set_status suspended)
    ∷ button (codes "Activate user") (action_loading || is_active detail.status) (set_status active)
    ∷ []

unfoldable pub top_up_card : {D : Type 0} → Page D → Nodes Click
unfolding input_field
top_up_card s =
    say "Manual Top-up"
      ∷ say "Create an admin payment and credit ledger entry."
      ∷ input_field "Credits" none s.top_up_credits (typed "Credits")
    ++ input_field "Amount minor" none s.top_up_amount (typed "Amount minor")
    ++ input_field "Currency" none s.top_up_currency (typed "Currency")
    ++ input_field "Package ID" (some "Optional package UUID.") s.top_up_package_id
        (typed "Package ID")
    ++ input_field "Provider ref"
        (some "Optional. Stored as the manual provider reference/idempotency key.")
        s.top_up_provider_ref (typed "Provider ref")
    ++ input_field "Note" none s.top_up_note (typed "Note")
    ++ button (label_if s.action_loading "Submitting" "Create top-up") s.action_loading
        submit_top_up
      ∷ []

unfoldable pub adjustment_card : {D : Type 0} → Page D → Nodes Click
unfolding input_field trim
adjustment_card s =
    say "Credit Adjustment"
      ∷ say "Credit or debit with a required audit reason."
      ∷ say "Type"
      ∷ button (codes "credit") false (choose_type credit)
      ∷ button (codes "debit") false (choose_type debit)
      ∷ input_field "Credits" none s.adjust_units (typed "Credits")
    ++ input_field "Reason" none s.adjust_reason (typed "Reason")
    ++ button (label_if s.action_loading "Submitting" "Create adjustment")
        (s.action_loading || not (truthy (trim s.adjust_reason))) submit_adjustment
      ∷ []

-- A table, or that it is empty.
abbrev pub table_or {ℓ} :
    {A : Type ℓ} → (title message : String) → (A → Nodes Click) → List A → Nodes Click
table_or title message row [] = say title ∷ say message ∷ []
table_or title message row (a ∷ as_) = each row (a ∷ as_)

-- `omniroute_key_id ? "Linked" : "Not linked"`
abbrev linked : Option Str → Str
linked none = codes "Not linked"
linked (some id) = if truthy id then codes "Linked" else codes "Not linked"

-- `percent used purchased` is `Math.round((used / purchased) * 100)` on doubles.
module _ (formats : Formats) (percent : ℕ → ℕ → ℕ) where
  unfoldable pub used_percent : AdminBalance → ℕ
  used_percent b =
      if ltb 0 b.lifetime_purchased_units
      then min 100 (percent b.lifetime_used_units b.lifetime_purchased_units)
      else 0

  unfoldable pub balance_card : AdminBalance → Nodes Click
  unfolding used_percent
  balance_card b =
      say "Balance"
        ∷ say "Credit wallet state from the ledger-backed balance row."
        ∷ text (codes "v" ++ to_digits b.version)
        ∷ field (codes "Available") (formats.format_compact_credits b.available_units)
        ∷ field (codes "Purchased") (formats.format_compact_credits b.lifetime_purchased_units)
        ∷ field (codes "Used") (formats.format_compact_credits b.lifetime_used_units)
        ∷ when (ltb 0 b.lifetime_purchased_units)
            (field (codes "Lifetime usage") (to_digits (used_percent b) ++ codes "%") ∷ [])
      ++ text (codes "Updated " ++ formats.format_date_time (some b.updated_at)) ∷ []

  unfoldable pub key_card : (action_loading : Bool) → Option AdminKey → Nodes Click
  unfolding empty_state truncate_id
  key_card action_loading none =
      say "API Key"
      ∷ say "Metadata only. Raw keys and hashes are never exposed."
      ∷ empty_state "No API key" "This user has not created an API key yet."
  key_card action_loading (some k) =
      say "API Key"
      ∷ say "Metadata only. Raw keys and hashes are never exposed."
      ∷ name_badge (key_status_name k.status)
      ∷ field (codes "Prefix") (codes k.key_prefix)
      ∷ field (codes "OmniRoute") (linked k.omniroute_key_id)
      ∷ field (codes "OmniRoute ID") (truncate_id k.omniroute_key_id 10 6)
      ∷ field (codes "Created") (formats.format_date_time (some k.created_at))
      ∷ field (codes "Last used") (formats.format_date_time k.last_used_at)
      ∷ field (codes "Revoked") (formats.format_date_time k.revoked_at)
      ∷ button (codes "Suspend key") (action_loading || is_key_suspended k.status) (act suspend)
      ∷ button (codes "Resume key")
          (action_loading || is_key_active k.status || is_key_revoked k.status) (act resume)
      ∷ button (codes "Revoke key") (action_loading || is_key_revoked k.status) (act revoke)
      ∷ []

  abbrev pub usage_row : AdminUsageEvent → Nodes Click
  usage_row e =
      text (text_or e.model "-")
      ∷ text (text_or e.provider "-")
      ∷ text (formats.format_compact_units e.total_tokens)
      ∷ text (formats.format_compact_credits e.cost_units)
      ∷ name_badge e.status
      ∷ text (formats.format_date_time (some e.occurred_at))
      ∷ []

  unfoldable pub recent_usage : AdminUserDetail → Nodes Click
  recent_usage detail =
      say "Recent Usage"
      ∷ say "Latest usage events for this user."
      ∷ table_or "No recent usage" "Usage appears after OmniRoute logs are synced." usage_row
          detail.recent_usage

  abbrev pub ledger_row : AdminLedgerEntry → Nodes Click
  ledger_row e =
      say e.type
      ∷ text (format_delta formats.format_credits e.delta_is_negative e.delta_size)
      ∷ text (formats.format_compact_credits e.balance_after_units)
      ∷ text (text_or e.reason "-")
      ∷ text (formats.format_date_time (some e.created_at))
      ∷ []

  unfoldable pub recent_ledger : AdminUserDetail → Nodes Click
  unfolding format_delta
  recent_ledger detail =
      say "Recent Ledger"
      ∷ say "Ledger-backed balance mutations."
      ∷ table_or "No recent ledger" "Top-ups, usage, and adjustments appear here." ledger_row
          detail.recent_ledger

  abbrev pub payment_row : AdminPayment → Nodes Click
  payment_row p =
      text (formats.format_money p.amount_minor p.currency)
      ∷ text (formats.format_compact_credits p.credit_units)
      ∷ badge (if str_eq p.status "paid" then BadgeTone.green else BadgeTone.neutral)
          (codes p.status)
      ∷ text (truncate_id p.admin_id 8 4)
      ∷ text (formats.format_date_time (some p.created_at))
      ∷ []

  unfoldable pub recent_payments : AdminUserDetail → Nodes Click
  unfolding truncate_id
  recent_payments detail =
      say "Recent Payments"
      ∷ say "Latest manual top-ups and payment rows."
      ∷ table_or "No recent payments" "Manual top-ups appear here." payment_row
          detail.recent_payments

  unfoldable pub content : Page AdminUserDetail → AdminUserDetail → Nodes Click
  content s detail =
      header s.action_loading detail
      ++ balance_card detail.balance
      ++ recent_usage detail
      ++ recent_ledger detail
      ++ recent_payments detail
      ++ key_card s.action_loading detail.api_key
      ++ top_up_card s
      ++ adjustment_card s

  unfoldable pub view : Page AdminUserDetail → Nodes Click
  unfolding loading_state error_state
  view s =
      link (codes "/admin/users") (codes "Back to users")
        ∷ when s.loading (loading_state "Loading user detail")
      ++ given s.error (λ message. error_state message (some retry))
      ++ given s.notice (λ notice. text notice ∷ [])
      ++ given s.detail (content s)

-- ===== src/UserDetail/View/Laws.antt =====
-- Which controls an admin has on a user's page.
use slai.Base.{
  ◌≡◌, refl, Bool, true, false, not, ◌&&◌, ◌||◌, Option, none, some, String, arith, Option-cases,
  inl, inr, ◌∙◌, ℕ, List, [], ◌∷◌,
}
use slai.Text.{trim, truthy}
use slai.Api.User.{active, suspended}
use slai.Api.Admin.{AdminKey, AdminBalance, AdminUserDetail}
use slai.Markup.{Nodes, Formats, has, sends}
use slai.Markup.Laws.{parts, has-each-false}
use slai.UserDetail.{credit, debit, suspend, resume, revoke, Page}
use slai.UserDetail.View.{
  Click, typed, retry, submit_top_up, submit_adjustment, set_status, act, choose_type, is_active,
  is_key_suspended, is_key_revoked, header, top_up_card, adjustment_card, table_or, balance_card,
  key_card, usage_row, recent_usage, ledger_row, recent_ledger, payment_row, recent_payments,
  content, view,
}

-- The controls for a key.
abbrev pub key_offers : (Click → Bool) → (busy : Bool) → Option AdminKey → Bool
key_offers p busy none = false
key_offers p busy (some k) =
    (not busy && not (is_key_suspended k.status) && p (act suspend))
    || (not busy && is_key_suspended k.status && p (act resume))
    || (not busy && not (is_key_revoked k.status) && p (act revoke))

-- The fields of a top-up, and those of an adjustment.
abbrev pub top_up_fields : (Click → Bool) → Bool
top_up_fields p =
    p (typed "Credits")
    || p (typed "Amount minor")
    || p (typed "Currency")
    || p (typed "Package ID")
    || p (typed "Provider ref")
    || p (typed "Note")

abbrev pub adjustment_fields : (Click → Bool) → Bool
adjustment_fields p = p (typed "Credits") || p (typed "Reason")

-- The controls that a page with a user's details should have in a state.
abbrev pub should_offer : (Click → Bool) → Page AdminUserDetail → AdminUserDetail → Bool
should_offer p s detail =
    (not s.action_loading && is_active detail.status && p (set_status suspended))
    || (not s.action_loading && not (is_active detail.status) && p (set_status active))
    || key_offers p s.action_loading detail.api_key
    || (top_up_fields p || (not s.action_loading && p submit_top_up))
    || (p (choose_type credit) || p (choose_type debit) || adjustment_fields p)
    || (not s.action_loading && truthy (trim s.adjust_reason) && p submit_adjustment)

module _ (p : Click → Bool) where
  offers-table_or {ℓ} :
      {A : Type ℓ} (title message : String) (row : A → Nodes Click) (as_ : List A)
      → ((a : A) → has (sends p) (row a) ≡ false)
      → has (sends p) (table_or title message row as_) ≡ false
  unfolding has
  offers-table_or title message row [] h = refl
  offers-table_or title message row (a ∷ as_) h = has-each-false (sends p) row h (a ∷ as_)

  offers-header :
      (busy : Bool) (detail : AdminUserDetail)
      → has (sends p) (header busy detail) ≡ (
          (not busy && is_active detail.status && p (set_status suspended))
          || (not busy && not (is_active detail.status) && p (set_status active)))
  unfolding has header
  offers-header busy detail = ground arith

  offers-top_up_card :
      (s : Page AdminUserDetail)
      → has (sends p) (top_up_card s)
        ≡ (top_up_fields p || (not s.action_loading && p submit_top_up))
  unfolding has top_up_card
  offers-top_up_card s = ground arith

  offers-adjustment_card :
      (s : Page AdminUserDetail)
      → has (sends p) (adjustment_card s) ≡ (
          (p (choose_type credit) || p (choose_type debit) || adjustment_fields p)
          || (not s.action_loading && truthy (trim s.adjust_reason) && p submit_adjustment))
  unfolding has adjustment_card
  offers-adjustment_card s = ground arith

  module _ (formats : Formats) (percent : ℕ → ℕ → ℕ) where
    offers-balance_card :
        (b : AdminBalance) → has (sends p) (balance_card formats percent b) ≡ false
    unfolding has balance_card
    offers-balance_card b = ground arith

    offers-key_card :
        (busy : Bool) (key : Option AdminKey)
        → has (sends p) (key_card formats percent busy key) ≡ key_offers p busy key
    unfolding has key_card
    offers-key_card busy none = refl
    offers-key_card busy (some k) = ground arith

    offers-recent_usage :
        (detail : AdminUserDetail) → has (sends p) (recent_usage formats percent detail) ≡ false
    unfolding has recent_usage
    offers-recent_usage detail =
        offers-table_or "No recent usage" "Usage appears after OmniRoute logs are synced."
          (usage_row formats percent) detail.recent_usage (λ e. refl)

    offers-recent_ledger :
        (detail : AdminUserDetail) → has (sends p) (recent_ledger formats percent detail) ≡ false
    unfolding has recent_ledger
    offers-recent_ledger detail =
        offers-table_or "No recent ledger" "Top-ups, usage, and adjustments appear here."
          (ledger_row formats percent) detail.recent_ledger (λ e. refl)

    offers-recent_payments :
        (detail : AdminUserDetail) → has (sends p) (recent_payments formats percent detail) ≡ false
    unfolding has recent_payments
    offers-recent_payments detail =
        offers-table_or "No recent payments" "Manual top-ups appear here."
          (payment_row formats percent) detail.recent_payments (λ e. refl)

    offers-content :
        (s : Page AdminUserDetail) (detail : AdminUserDetail)
        → has (sends p) (content formats percent s detail) ≡ should_offer p s detail
    unfolding content
    offers-content s detail =
        simp
          (
            parts, offers-header, offers-balance_card, offers-recent_usage, offers-recent_ledger,
            offers-recent_payments, offers-key_card, offers-top_up_card, offers-adjustment_card,
          )
          (ground arith)

    abbrev is_some {κ} : {A : Type κ} → Option A → Bool
    is_some none = false
    is_some (some _) = true

    abbrev pub offered : Page AdminUserDetail → Bool
    offered s =
        (is_some s.error && p retry)
        || elim s.detail [ none ↦ false | some detail ↦ should_offer p s detail ]

    -- In every state the page offers exactly these controls: a retry beside an error, and, for a
    -- user that has loaded: the change to the other status, suspending a key that is not
    -- suspended, resuming one that is, revoking one that is not revoked, a top-up, the two kinds
    -- of an adjustment, and an adjustment with a reason, with the fields of both; those that lead
    -- to a call are disabled while one runs.
    pub has-view : (s : Page AdminUserDetail) → has (sends p) (view formats percent s) ≡ offered s
    unfolding has view
    has-view s = elim (Option-cases s.detail) [
      | inl e ↦ elim (Option-cases s.notice) [
        | inl n ↦ simp (parts, e, n) (ground arith)
        | inr (m, n) ↦ simp (parts, e, n) (ground arith)
      ]
      | inr (detail, e) ↦ elim (Option-cases s.notice) [
        | inl n ↦ simp (parts, offers-content, e, n) (ground arith)
        | inr (m, n) ↦ simp (parts, offers-content, e, n) (ground arith)
      ]
    ]

-- A click that leads to a call which changes something.
abbrev pub makes_change : Click → Bool
makes_change retry = false
makes_change (typed label) = false
makes_change (choose_type kind) = false
makes_change submit_top_up = true
makes_change submit_adjustment = true
makes_change (set_status status) = true
makes_change (act action) = true

-- While an action runs, the page offers none that changes the user.
pub busy-NoAction :
    (formats : Formats) (percent : ℕ → ℕ → ℕ) (s : Page AdminUserDetail)
    → s.action_loading ≡ true
    → has (sends makes_change) (view formats percent s) ≡ false
busy-NoAction formats percent s h = has-view makes_change formats percent s ∙ ground arith

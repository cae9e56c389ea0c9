-- ===== src/ApiKey/View/Laws.antt =====
-- Which controls the API key page offers.
use slai.Base.{
  [], ◌∷◌, ◌≡◌, refl, Bool, true, false, not, ◌&&◌, ◌||◌, Option, none, some, arith, Option-cases,
  inl, inr, Bool-cases, ◌∙◌,
}
use slai.Text.{Str, trim, truthy}
use slai.Markup.{Formats, has, sends}
use slai.Markup.Laws.{parts}
use slai.ApiKey.{PublicKey, ConfirmAction, rotate, revoke, Page, can_create}
use slai.ApiKey.View.{
  Click, typed, retry, focus_form, create, dismiss, copy_raw, confirm, cancel, ask, is_revoked,
  header, confirm_panel, raw_key_card, create_or_security, quickstart_card, current_key, summary,
  content, view,
}

-- Whether there is a key that is not revoked.
abbrev pub is_live : Option PublicKey → Bool
is_live none = false
is_live (some k) = not (is_revoked k.status)

abbrev pub is_some {ℓ} : {A : Type ℓ} → Option A → Bool
is_some none = false
is_some (some _) = true

abbrev pub has_raw : Option Str → Bool
has_raw none = false
has_raw (some raw) = truthy raw

-- The controls of the page's content, each with its condition.
abbrev pub content_offers : (Click → Bool) → Page → Bool
content_offers p s =
    (has_raw s.raw_key && (p copy_raw || p dismiss))
    || (not (is_some s.api_key) && p focus_form)
    || (is_some s.api_key
        && is_some s.pending_confirm
        && not s.action_loading
        && (p cancel || p confirm))
    || (is_live s.api_key && not s.action_loading && (p (ask rotate) || p (ask revoke)))
    || (not (is_live s.api_key)
        && (p (typed "Key name") || (not s.action_loading && truthy (trim s.name) && p create)))

-- The controls that a page should have in a state.
abbrev pub should_offer : (Click → Bool) → Page → Bool
should_offer p s =
    (is_live s.api_key && not s.action_loading && p (ask rotate))
    || (not (is_live s.api_key) && p focus_form)
    || (is_some s.error && p retry)
    || (not s.loading && not (is_some s.error) && content_offers p s)

live-can_create : (key : Option PublicKey) → can_create key ≡ not (is_live key)
unfolding can_create
live-can_create key = ground arith

-- A click that leads to a call which changes the key.
abbrev pub changes_key : Click → Bool
changes_key create = true
changes_key confirm = true
changes_key retry = false
changes_key (typed label) = false
changes_key focus_form = false
changes_key dismiss = false
changes_key copy_raw = false
changes_key cancel = false
changes_key (ask action) = false

module _ (p : Click → Bool) where
  offers-header :
      (key : Option PublicKey) (busy : Bool)
      → has (sends p) (header key busy)
        ≡ ((is_live key && not busy && p (ask rotate)) || (not (is_live key) && p focus_form))
  unfolding has header
  offers-header none busy = ground arith
  offers-header (some k) busy = elim (Bool-cases (is_revoked k.status)) [
    | inl e ↦ rw e (ground arith)
    | inr e ↦ rw e (ground arith)
  ]

  offers-raw_key_card :
      (raw : Option Str)
      → has (sends p) (raw_key_card raw) ≡ (has_raw raw && (p copy_raw || p dismiss))
  unfolding has raw_key_card
  offers-raw_key_card none = refl
  offers-raw_key_card (some []) = refl
  offers-raw_key_card (some (c ∷ raw)) = ground arith

  offers-confirm_panel :
      (action : ConfirmAction) (busy : Bool)
      → has (sends p) (confirm_panel action busy) ≡ (not busy && (p cancel || p confirm))
  unfolding has confirm_panel
  offers-confirm_panel rotate busy = ground arith
  offers-confirm_panel revoke busy = ground arith

  offers-create_or_security :
      (s : Page)
      → has (sends p) (create_or_security s) ≡ (
          not (is_live s.api_key)
          && (p (typed "Key name") || (not s.action_loading && truthy (trim s.name) && p create)))
  unfolding has create_or_security
  offers-create_or_security s = elim (Bool-cases (is_live s.api_key)) [
    | inl e ↦ rw (live-can_create s.api_key, e) refl
    | inr e ↦ rw (live-can_create s.api_key, e) (ground arith)
  ]

  offers-quickstart_card : (raw : Option Str) → has (sends p) (quickstart_card raw) ≡ false
  unfolding has quickstart_card
  offers-quickstart_card raw = refl

  module _ (formats : Formats) where
    offers-summary : (key : Option PublicKey) → has (sends p) (summary formats key) ≡ false
    unfolding has summary
    offers-summary none = refl
    offers-summary (some k) = refl

    offers-current_key :
        (s : Page)
        → has (sends p) (current_key formats s) ≡ (
            (not (is_some s.api_key) && p focus_form)
            || (is_some s.api_key
                && is_some s.pending_confirm
                && not s.action_loading
                && (p cancel || p confirm))
            || (is_live s.api_key && not s.action_loading && (p (ask rotate) || p (ask revoke))))
    unfolding has current_key
    offers-current_key s = elim (Option-cases s.api_key) [
      | inl e ↦ rw e (ground arith)
      | inr (k, e) ↦ elim (Option-cases s.pending_confirm) [
        | inl q ↦ rw (e, q) (ground arith)
        | inr (action, q) ↦
            simp (parts, offers-confirm_panel action s.action_loading, e, q) (ground arith)
      ]
    ]

    offers-content : (s : Page) → has (sends p) (content formats s) ≡ content_offers p s
    unfolding has content
    offers-content s = elim (Option-cases s.notice) [
      | inl e ↦
          simp
            (
              parts, offers-summary, offers-raw_key_card, offers-current_key,
              offers-quickstart_card, offers-create_or_security, e,
            )
            (ground arith)
      | inr (n, e) ↦
          simp
            (
              parts, offers-summary, offers-raw_key_card, offers-current_key,
              offers-quickstart_card, offers-create_or_security, e,
            )
            (ground arith)
    ]

    -- In every state the page offers exactly these controls: rotation for a key that is not
    -- revoked and the way to the form otherwise, a retry beside an error, and, once it has loaded
    -- without an error: copying and dismissing a raw key, the answers to a pending question about
    -- a key, both questions for a key that is not revoked, and, where there is none or a revoked
    -- one, the field of a name and creating a key under it; those that lead to a call are disabled
    -- while one runs.
    pub has-view : (s : Page) → has (sends p) (view formats s) ≡ should_offer p s
    unfolding has view
    has-view s = elim (Option-cases s.error) [
      | inl e ↦ elim (Bool-cases s.loading) [
        | inl q ↦ simp (parts, offers-header, e, q) (ground arith)
        | inr q ↦ simp (parts, offers-header, offers-content, e, q) (ground arith)
      ]
      | inr (m, e) ↦ elim (Bool-cases s.loading) [
        | inl q ↦ simp (parts, offers-header, e, q) (ground arith)
        | inr q ↦ simp (parts, offers-header, e, q) (ground arith)
      ]
    ]

-- While a call that changes the key runs, the page offers no control that makes another one.
pub busy-NoChange :
    (formats : Formats) (s : Page)
    → s.action_loading ≡ true
    → has (sends changes_key) (view formats s) ≡ false
busy-NoChange formats s h = has-view changes_key formats s ∙ ground arith

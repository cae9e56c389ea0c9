-- ===== src/Checkout/View/Laws.antt =====
-- Which controls the checkout page offers.
use slai.Base.{
  ◌≡◌, refl, Bool, true, false, not, ◌&&◌, ◌||◌, Option, none, some, String, arith, Option-cases,
  inl, inr,
}
use slai.Markup.{Formats, has, sends}
use slai.Markup.Laws.{parts}
use slai.Checkout.Status.{
  Payment, can_upload_proof, proof_panel, ProofPanel, upload_form, submitted, not_required, closed,
}
use slai.Checkout.Page.{Checkout}
use slai.Checkout.View.{
  Click, typed, picked_file, retry, check_status, submit, copy, close, header, request_state,
  order_card, status_card, proof_form_view, proof_body, proof_card, details_card, pay_card,
  success_dialog, content, view,
}

abbrev pub is_some {ℓ} : {A : Type ℓ} → Option A → Bool
is_some none = false
is_some (some _) = true

abbrev is_upload_form : ProofPanel → Bool
is_upload_form upload_form = true
is_upload_form submitted = false
is_upload_form not_required = false
is_upload_form closed = false

-- The controls of a proof: its file, its two texts, and submitting it.
abbrev pub proof_offers : (Click → Bool) → Checkout → Bool
proof_offers p s =
    p picked_file
    || p (typed "Transaction reference (optional)")
    || p (typed "Note (optional)")
    || (not s.uploading && p submit)

-- The controls of a shown payment: copying its reference, and those of a proof.
abbrev pub payment_offers : (Click → Bool) → Payment → Checkout → Bool
payment_offers p payment s = (can_upload_proof payment && proof_offers p s) || p copy

-- The controls that a page should have in a state.
abbrev pub should_offer : (Click → Bool) → Checkout → Bool
should_offer p s =
    (not (s.refreshing || s.loading) && p check_status)
    || (is_some s.error && p retry)
    || elim s.payment [
      | none ↦ false
      | some payment ↦
          (not s.loading && payment_offers p payment s) || (s.show_payment_success && p close)
    ]

module _ (p : Click → Bool) where
  offers-header :
      (s : Checkout)
      → has (sends p) (header s) ≡ (not (s.refreshing || s.loading) && p check_status)
  unfolding has header
  offers-header s = elim (Option-cases s.payment) [
    | inl e ↦ rw e (ground arith)
    | inr (payment, e) ↦ rw e (ground arith)
  ]

  offers-request_state :
      (s : Checkout) → has (sends p) (request_state s) ≡ (is_some s.error && p retry)
  unfolding has request_state
  offers-request_state s = ground arith

  module _ (formats : Formats) where
    offers-order_card : (payment : Payment) → has (sends p) (order_card formats payment) ≡ false
    unfolding has order_card
    offers-order_card payment = refl

    offers-status_card :
        (payment : Payment) (n : Option String)
        → has (sends p) (status_card formats payment n) ≡ false
    unfolding has status_card
    offers-status_card payment n = ground arith

    offers-proof_form_view :
        (s : Checkout) → has (sends p) (proof_form_view formats s) ≡ proof_offers p s
    unfolding has proof_form_view
    offers-proof_form_view s = ground arith

    offers-proof_body :
        (panel : ProofPanel) (payment : Payment) (s : Checkout)
        → has (sends p) (proof_body formats panel payment s)
          ≡ (is_upload_form panel && proof_offers p s)
    unfolding has proof_body
    offers-proof_body upload_form payment s = offers-proof_form_view s
    offers-proof_body submitted payment s = refl
    offers-proof_body not_required payment s = refl
    offers-proof_body closed payment s = refl

    is_upload_form-proof_panel :
        (payment : Payment) → is_upload_form (proof_panel payment) ≡ can_upload_proof payment
    unfolding proof_panel
    is_upload_form-proof_panel payment = ground arith

    offers-proof_card :
        (payment : Payment) (s : Checkout)
        → has (sends p) (proof_card formats payment s)
          ≡ (can_upload_proof payment && proof_offers p s)
    unfolding has proof_card
    offers-proof_card payment s = ground (
      arith,
      offers-proof_body (proof_panel payment) payment s,
      is_upload_form-proof_panel payment,
    )

    offers-details_card :
        (payment : Payment) (s : Checkout) → has (sends p) (details_card formats payment s) ≡ p copy
    unfolding has details_card
    offers-details_card payment s = ground arith

    offers-pay_card :
        (asset_url : String → String) (payment : Payment) (s : Checkout)
        → has (sends p) (pay_card formats asset_url payment s) ≡ false
    unfolding has pay_card
    offers-pay_card asset_url payment s = ground arith

    offers-success_dialog :
        (payment : Payment) → has (sends p) (success_dialog formats payment) ≡ p close
    unfolding has success_dialog
    offers-success_dialog payment = ground arith

    offers-content :
        (asset_url : String → String) (payment : Payment) (s : Checkout)
        → has (sends p) (content formats asset_url payment s) ≡ payment_offers p payment s
    unfolding has content
    offers-content asset_url payment s =
        simp
          (
            parts, offers-order_card, offers-status_card, offers-proof_card, offers-details_card,
            offers-pay_card,
          )
          (ground arith)

    pub has-view :
        (asset_url : String → String) (s : Checkout)
        → has (sends p) (view formats asset_url s) ≡ should_offer p s
    unfolding has view
    has-view asset_url s = elim (Option-cases s.payment) [
      | inl e ↦ simp (parts, offers-header, offers-request_state, e) (ground arith)
      | inr (payment, e) ↦
          simp
            (parts, offers-header, offers-request_state, e, offers-content, offers-success_dialog)
            (ground arith)
    ]

-- ===== src/Checkout/View.antt =====
-- What `CheckoutPage` shows: apps/web/src/app/checkout/[paymentId]/page.tsx from its return on. The
-- header, then the order, status, proof, details and payment cards, and the success dialog.
pub mod Laws
pub mod Uploads
use slai.Base.{
  false, not, ◌||◌, [], ◌∷◌, ◌++◌, Option, none, some, String, codes, str_eq, if◌then◌else◌,
}
use slai.Text.{Str}
use slai.Format.{truncate_id}
use slai.Badge.{BadgeTone}
use slai.Api.Endpoints.{build_url}
use slai.Markup.{
  Node, Nodes, text, say, badge, field, image, input, link, button, when, given, text_or, label_if,
  set_or, Formats,
}
use slai.Markup.Parts.{loading_state, error_state, input_field}
use slai.Checkout.Status.{
  Payment, File, StatusTone, status_copy, status_label, payment_tone, file_size_label,
  reference_for, proof_panel, ProofPanel, upload_form, submitted, not_required, closed,
}
use slai.Checkout.Page.{Checkout, Settings, qr_image_src}

-- What the customer can click.
pub data Click : Type 0 where
  typed : (label : String) → Click
  retry check_status submit copy close picked_file : Click

-- The tone of a badge.
abbrev pub badge_tone : StatusTone → BadgeTone
badge_tone StatusTone.blue = BadgeTone.blue
badge_tone StatusTone.green = BadgeTone.green
badge_tone StatusTone.red = BadgeTone.red
badge_tone StatusTone.yellow = BadgeTone.yellow
badge_tone StatusTone.neutral = BadgeTone.neutral

abbrev status_badge : BadgeTone → Payment → Node Click
status_badge tone p = badge tone (status_label (codes p.status))

abbrev payment_badge : Payment → Node Click
payment_badge p = status_badge (badge_tone (payment_tone p.status)) p

unfoldable pub header : Checkout → Nodes Click
unfolding status_label payment_tone
header s =
    say "Checkout" ∷ say "Bakong KHQR payment" ∷ given s.payment (λ p. payment_badge p ∷ [])
    ++ (say
          "Scan the KHQR, complete the payment, upload proof when requested, and SLAI will credit your account after confirmation."
        ∷ button (label_if s.refreshing "Checking" "Check status") (s.refreshing || s.loading)
            check_status
        ∷ link (codes "/dashboard/billing") (codes "Back to billing")
        ∷ [])

unfoldable pub request_state : Checkout → Nodes Click
unfolding loading_state error_state
request_state s =
    when s.loading (loading_state "Loading checkout")
    ++ given s.error (λ message. error_state message (some retry))

module _ (formats : Formats) where
  unfoldable pub order_card : Payment → Nodes Click
  unfolding status_label payment_tone
  order_card p =
      text (text_or p.package_name "Credit package")
      ∷ say "Review the order before paying. Credits are added only after confirmation."
      ∷ payment_badge p
      ∷ field (codes "Amount") (formats.format_money p.amount_minor p.currency)
      ∷ field (codes "Total credits") (formats.format_credits p.credit_units)
      ∷ field (codes "Created") (formats.format_date_time (some p.created_at))
      ∷ field (codes "Status") (status_label (codes p.status))
      ∷ say
          "Credits are never added from the checkout screen alone. SLAI only updates your balance after a verified payment or admin approval."
      ∷ []

  unfoldable pub status_card : Payment → (notice : Option String) → Nodes Click
  unfolding status_label status_copy
  status_card p notice =
      let summary = status_copy p in
      say "Payment status"
        ∷ say "Your next action depends on the current checkout state."
        ∷ status_badge (badge_tone summary.tone) p
        ∷ say summary.title
        ∷ say summary.text
        ∷ say "Next step"
        ∷ say summary.next_step
        ∷ when (str_eq p.status "paid") (
            link (codes "/dashboard/billing") (codes "Open billing")
            ∷ link (codes "/dashboard") (codes "Open dashboard")
            ∷ [])
      ++ given notice (λ n. say n ∷ [])

  abbrev selected : File → Nodes Click
  selected file =
      text (
        codes "Selected: "
        ++ file.name
        ++ codes " ("
        ++ file_size_label formats.format_units (some file)
        ++ codes ")")
      ∷ []

  unfoldable pub proof_form_view : Checkout → Nodes Click
  unfolding file_size_label input_field
  proof_form_view s =
      say "Receipt or screenshot"
        ∷ say "PNG, JPEG, WebP, or PDF. Upload the receipt after paying the exact amount."
        ∷ input [] [] false (some picked_file)
        ∷ given s.selected_file selected
      ++ input_field "Transaction reference (optional)"
          (some "This is a user note only. Admins verify the final payment reference separately.")
          s.transaction_ref (typed "Transaction reference (optional)")
      ++ input_field "Note (optional)"
          (some "Add context if the receipt name or amount needs clarification.") s.note
          (typed "Note (optional)")
      ++ given s.upload_error (λ message. say message ∷ [])
      ++ button (label_if s.uploading "Submitting proof" "Submit proof") s.uploading submit ∷ []

  -- The body of the card, by the panel that the payment has.
  unfoldable pub proof_body : ProofPanel → Payment → Checkout → Nodes Click
  unfolding proof_form_view build_url
  proof_body upload_form p s = proof_form_view s
  proof_body submitted p s =
      say "Proof is already submitted"
      ∷ say "Your proof is attached to this checkout. You can view it while waiting for review."
      ∷ link (build_url (codes "/v1/payments/" ++ codes p.id ++ codes "/proof"))
          (codes "View proof")
      ∷ []
  proof_body not_required p s =
      say "Proof upload is not required"
      ∷ say
          "This checkout is handled by provider status checks. Use Check status if the payment does not update automatically."
      ∷ []
  proof_body closed p s =
      say "Proof upload is closed"
      ∷ say "This checkout status does not currently accept a new proof upload."
      ∷ []

  unfoldable pub proof_card : Payment → Checkout → Nodes Click
  unfolding proof_body proof_panel
  proof_card p s =
      say "Upload payment proof"
      ∷ say "Use this only for manual checkouts that require admin review."
      ∷ (if p.proof_uploaded
          then badge BadgeTone.yellow (codes "Proof uploaded")
          else badge BadgeTone.neutral (codes "Manual review"))
      ∷ proof_body (proof_panel p) p s

  -- `providerTransactionId ? truncateId(providerTransactionId, 12, 6) : "-"`
  abbrev transaction_id : Option Str → Str
  transaction_id id = truncate_id id 12 6

  unfoldable pub details_card : Payment → Checkout → Nodes Click
  unfolding truncate_id reference_for
  details_card p s =
      say "Payment details"
      ∷ say "Use these references when checking payment status with support."
      ∷ field (codes "Checkout reference") (codes (reference_for p))
      ∷ button (label_if s.copied_reference "Copied" "Copy") false copy
      ∷ field (codes "Provider status") (text_or p.provider_status "-")
      ∷ field (codes "Provider") (codes p.provider)
      ∷ field (codes "Expires") (formats.format_date_time p.expires_at)
      ∷ field (codes "Transaction ID") (transaction_id p.provider_transaction_id)
      ∷ field (codes "Payment APV") (text_or p.provider_apv "-")
      ∷ field (codes "Verified reference") (text_or p.admin_payment_reference "-")
      ∷ field (codes "Paid") (formats.format_date_time p.paid_at)
      ∷ field (codes "Reviewed") (formats.format_date_time p.reviewed_at)
      ∷ field (codes "Callback received") (formats.format_date_time p.callback_received_at)
      ∷ []

  abbrev steps : Nodes Click
  steps =
      say "What happens next"
      ∷ say "The checkout flow keeps payment and crediting separate."
      ∷ field (codes "Scan and pay") (codes "Pay the exact amount with Bakong or your banking app.")
      ∷ field (codes "Submit proof if needed")
          (codes "Manual checkouts ask for a receipt before review.")
      ∷ field (codes "Confirmation")
          (codes "SLAI waits for provider confirmation or admin approval.")
      ∷ field (codes "Credits added")
          (codes "Approved payments create a ledger credit on your account.")
      ∷ []

  -- `value ? <Info …/> : null`
  abbrev info_if : String → Option String → Nodes Click
  info_if label value =
      given value (λ v. when (not (str_eq v "")) (field (codes label) (codes v) ∷ []))

  abbrev settings_info : Option Settings → Nodes Click
  settings_info none = []
  settings_info (some x) =
      info_if "Account name" x.account_name ++ info_if "Account ID" x.account_id

  abbrev instructions_of : Option Settings → Str
  instructions_of settings =
      set_or (elim settings [ none ↦ none | some x ↦ x.instructions ])
        "Pay the exact amount shown, save the receipt, and keep this checkout open until your status is updated."

  -- The code to scan: an image, input, else the payload as text, else that there is none.
  abbrev pub qr_code : (image_src : Option String) → (payload : Option String) → Node Click
  qr_code image_src payload = elim image_src [
    | some src ↦ image (codes "Bakong KHQR") (codes src)
    | none ↦ text (set_or payload "QR data is not available for this payment.")
  ]

  unfoldable pub pay_card : (asset_url : String → String) → Payment → Checkout → Nodes Click
  unfolding qr_image_src reference_for
  pay_card asset_url p s =
      say "Scan to pay"
        ∷ say "Open Bakong or your banking app and scan this KHQR."
        ∷ qr_code (qr_image_src asset_url s) p.qr_payload
        ∷ field (codes "Amount") (formats.format_money p.amount_minor p.currency)
        ∷ field (codes "Package") (text_or p.package_name "Credit package")
        ∷ field (codes "Reference") (codes (reference_for p))
        ∷ settings_info s.settings
      ++ say "Payment instructions"
        ∷ text (instructions_of s.settings)
        ∷ say "Keep this checkout open"
        ∷ say
            "If the status does not update after payment, use Check status. For manual proof states, upload your receipt and wait for admin review."
        ∷ []

  unfoldable pub success_dialog : Payment → Nodes Click
  success_dialog p =
      let amount = formats.format_money p.amount_minor p.currency in
      let credits = formats.format_credits p.credit_units in
      say "Paid"
      ∷ say "Payment success"
      ∷ say "Credits added"
      ∷ text (
          codes "Your "
          ++ amount
          ++ codes " payment for "
          ++ text_or p.package_name "Credit package"
          ++ codes " was confirmed. "
          ++ credits
          ++ codes "credits are now available in your account.")
      ∷ field (codes "Amount") amount
      ∷ field (codes "Credits") credits
      ∷ button (codes "Close") false close
      ∷ link (codes "/dashboard/billing") (codes "Open billing")
      ∷ []

  unfoldable pub content : (asset_url : String → String) → Payment → Checkout → Nodes Click
  content asset_url p s =
      order_card p
      ++ status_card p s.notice
      ++ proof_card p s
      ++ details_card p s
      ++ steps
      ++ pay_card asset_url p s

  unfoldable pub view : (asset_url : String → String) → Checkout → Nodes Click
  view asset_url s =
      header s
      ++ request_state s
      ++ when (not s.loading) (given s.payment (λ p. content asset_url p s))
      ++ when s.show_payment_success (given s.payment success_dialog)

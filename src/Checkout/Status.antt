-- ===== src/Checkout/Status.antt =====
-- Payments and their statuses: `Payment` of apps/web/src/lib/api.ts (the fields that the page
-- reads) and the helpers before `CheckoutPage`. A status is any text that the API sends; a missing
-- `proofUploaded` counts as false, as it does in each test of it.
pub mod Laws
use slai.Base.{
  ℕ, ◌+◌, ◌*◌, ◌/◌, ◌==◌, leb, Bool, true, false, not, ◌&&◌, ◌||◌, List, [], ◌∷◌, ◌++◌, Option,
  none, some, String, if◌then◌else◌, any, codes, str_eq,
}
use slai.Text.{Str}
use slai.Text.Decimal.{to_digits, fixed_digits}

pub record Payment : Type 0 where
  pub id : String
  pub package_name : Option String
  pub provider : String
  pub provider_ref : Option String
  pub external_payment_id : Option String
  pub checkout_reference : Option String
  pub qr_payload : Option String
  pub qr_image_data_uri : Option String
  pub expires_at : Option String
  pub callback_received_at : Option String
  pub provider_status : Option String
  pub provider_transaction_id : Option Str
  pub provider_apv : Option String
  pub amount_minor : ℕ
  pub currency : String
  pub credit_units : ℕ
  pub status : String
  pub proof_uploaded : Bool
  pub rejection_reason : Option String
  pub admin_payment_reference : Option String
  pub reviewed_at : Option String
  pub created_at : String
  pub paid_at : Option String

pub data StatusTone : Type 0 where
  blue green red yellow neutral : StatusTone

pub record StatusCopy : Type 0 where
  pub title : String
  pub text : String
  pub tone : StatusTone
  pub next_step : String

unfoldable pub payment_tone : String → StatusTone
payment_tone status =
    if str_eq status "paid"
    then green
    else if str_eq status "pending_payment" || str_eq status "pending_proof"
    then blue
    else if str_eq status "pending_review"
    then yellow
    else if str_eq status "expired"
    then yellow
    else if str_eq status "needs_review" || str_eq status "rejected" || str_eq status "cancelled"
    then red
    else neutral

-- `value ?? fallback`
abbrev pub or_else {ℓ} : {A : Type ℓ} → Option A → A → A
or_else none fallback = fallback
or_else (some a) fallback = a

-- `status.replaceAll("_", " ")`
unfoldable pub status_label : Str → Str
status_label [] = []
status_label (c ∷ s) = (if c == b'_' then b' ' else c) ∷ status_label s

unfoldable pub status_copy : Payment → StatusCopy
status_copy payment =
    if str_eq payment.status "paid"
    then record {
      title = "Payment approved";
      text = "Your payment was approved and credits were added to your SLAI balance.";
      tone = green;
      next_step = "Open billing or return to your dashboard to review the updated balance.";
    }
    else if str_eq payment.status "pending_review"
    then record {
      title = "Proof submitted";
      text = "Your payment proof has been submitted and is waiting for admin review.";
      tone = yellow;
      next_step = "No action is needed unless an admin asks for a clearer proof or reference.";
    }
    else if str_eq payment.status "pending_proof"
    then record {
      title = "Waiting for proof upload";
      text =
          "Complete the payment in your banking app, then upload the transaction screenshot or receipt.";
      tone = blue;
      next_step = "Pay the exact amount, save the receipt, and submit it below.";
    }
    else if str_eq payment.status "pending_payment"
    then record {
      title = "Waiting for payment confirmation";
      text =
          "Scan the KHQR and complete payment in your banking app. SLAI checks this checkout with the payment provider.";
      tone = blue;
      next_step =
          "Keep this page open and use Check status if the payment does not update after a moment.";
    }
    else if str_eq payment.status "expired"
    then record {
      title = "Payment expired";
      text =
          "This checkout is no longer payable. Choose the package again to generate a fresh KHQR.";
      tone = yellow;
      next_step = "Go back to billing and start a new checkout for the package.";
    }
    else if str_eq payment.status "needs_review"
    then record {
      title = "Payment needs review";
      text =
          "The payment provider could not safely match this payment automatically. SLAI has not credited the balance yet.";
      tone = red;
      next_step =
          "Contact an administrator with the checkout reference if this payment should be reviewed.";
    }
    else if str_eq payment.status "rejected"
    then record {
      title = "Payment rejected";
      text = or_else payment.rejection_reason "The submitted proof could not be approved.";
      tone = red;
      next_step =
          "Upload a clearer proof if you paid this checkout, or start a new checkout from billing.";
    }
    else if str_eq payment.status "cancelled"
    then record {
      title = "Payment cancelled";
      text = "This checkout has been cancelled and credits were not added.";
      tone = red;
      next_step = "Choose the package again if you still need credits.";
    }
    else record {
      title = "Checkout in progress";
      text = "Review this payment and follow the available next step.";
      tone = blue;
      next_step = "Refresh the checkout status if anything looks stale.";
    }

unfoldable pub can_upload_proof : Payment → Bool
can_upload_proof payment = str_eq payment.status "pending_proof" || str_eq payment.status "rejected"

unfoldable pub can_view_proof : Payment → Bool
can_view_proof payment =
    payment.proof_uploaded
    && any (str_eq payment.status) ("pending_review" ∷ "rejected" ∷ "paid" ∷ [])

-- `Boolean(value)`: neither missing nor empty.
abbrev pub is_set : Option String → Bool
is_set none = false
is_set (some s) = not (str_eq s "")

unfoldable pub is_auto_payment : Payment → Bool
is_auto_payment payment =
    is_set payment.external_payment_id
    || is_set payment.qr_image_data_uri
    || is_set payment.qr_payload
    || str_eq payment.status "pending_payment"

pub record File : Type 0 where
  pub name : Str
  pub size : ℕ

-- `format_units` is the grouping of `Intl.NumberFormat`. A size below 2^53 divided by 2^20 is
-- exact, so that `toFixed(2)` rounds the quotient itself, a half upwards.
unfoldable pub file_size_label : (format_units : ℕ → Str) → Option File → Str
file_size_label format_units none = []
file_size_label format_units (some file) =
    if leb (1024 * 1024) file.size
    then (let hundredths = (file.size * 100 + 524288) / 1048576 in
        to_digits (hundredths / 100) ++ codes "." ++ fixed_digits 2 hundredths ++ codes " MB")
    else format_units ((file.size + 1023) / 1024) ++ codes " KB"

unfoldable pub reference_for : Payment → String
reference_for payment =
    or_else payment.checkout_reference
      (or_else payment.provider_ref (or_else payment.external_payment_id payment.id))

-- The panel for proofs, in the order of its conditions.
pub data ProofPanel : Type 0 where
  upload_form submitted not_required closed : ProofPanel

unfoldable pub proof_panel : Payment → ProofPanel
unfolding can_upload_proof can_view_proof is_auto_payment
proof_panel payment =
    if can_upload_proof payment
    then upload_form
    else if can_view_proof payment
    then submitted
    else if is_auto_payment payment
    then not_required
    else closed

-- The statuses whose payment is asked for again every three seconds.
unfoldable pub is_auto_refreshed : String → Bool
is_auto_refreshed status =
    any (str_eq status) ("pending_payment" ∷ "pending_review" ∷ "needs_review" ∷ [])

-- ===== src/Tests/Checkout.antt =====
-- The checkout page on examples.
use slai.Base.{
  if◌then◌else◌, ◌≤◌, ◌∙◌, tally, List, ◌∷◌, here, there, ◌≡◌, ◌↔◌, refl, true, false, [], none,
  some, String, codes,
}
use slai.Api.Errors.{api_error, Outcome, resolved, rejected}
use slai.Checkout.Page.Polling.{poll, poll-shows}
use slai.Markup.{Formats, has, sends}
use slai.Checkout.View.{view}
use slai.Checkout.View.Laws.{has-view}
use slai.Checkout.View.Uploads.{
  Live, is_submit, submitting, other_event, opened, moved, clicked, happened, Reach-OneUpload,
}
use slai.Checkout.Page.Dialog as D
use slai.Checkout.Page.Dialog.{
  Happening, page_event, key_pressed, left, happen_all, is_open, happen_all-overflow,
}
use slai.Checkout.Status.{can_upload_proof, Payment, File}
use slai.Checkout.Page.{
  initial, loaded, picked, watch_status, after_load, Checkout, refreshed, step,
}
use slai.Checkout.Page.Laws.{TurnsPaid, arrives, step-opens_iff}

abbrev payment_with : String → Payment
payment_with status = record {
  id = "pay_1";
  package_name = some "Starter";
  provider = "bakong_khqr";
  provider_ref = none;
  external_payment_id = none;
  checkout_reference = some "SLAI-1";
  qr_payload = none;
  qr_image_data_uri = none;
  expires_at = none;
  callback_received_at = none;
  provider_status = none;
  provider_transaction_id = none;
  provider_apv = none;
  amount_minor = 500;
  currency = "USD";
  credit_units = 5000000;
  status = status;
  proof_uploaded = false;
  rejection_reason = none;
  admin_payment_reference = none;
  reviewed_at = none;
  created_at = "2026-01-01T00:00:00Z";
  paid_at = none;
}

abbrev receipt : File
receipt = record { name = codes "receipt.png"; size = 2048 }

-- A page that has seen a payment wait.
abbrev waiting_page : Checkout
waiting_page = record {
  payment = some (payment_with "pending_payment");
  settings = none;
  loading = false;
  refreshing = false;
  uploading = false;
  error = none;
  notice = none;
  upload_error = none;
  selected_file = some receipt;
  transaction_ref = codes " 42 ";
  note = [];
  copied_reference = false;
  show_payment_success = false;
  previous_payment_status = some "pending_payment";
}

step-opens_iff_example :
    ((step waiting_page (refreshed true (resolved (payment_with "paid")))).0.show_payment_success
      ≡ true)
    ↔ TurnsPaid
        (arrives (refreshed true (resolved (payment_with "paid"))))
        waiting_page.previous_payment_status
step-opens_iff_example =
    step-opens_iff waiting_page (refreshed true (resolved (payment_with "paid"))) refl

abbrev answers : List (Outcome Payment)
answers =
    rejected (api_error "offline" 503 none)
    ∷ resolved (payment_with "paid")
    ∷ resolved (payment_with "paid")
    ∷ []

poll-shows_example : (poll waiting_page answers).show_payment_success ≡ true
poll-shows_example = poll-shows waiting_page answers (payment_with "paid") refl refl (there here)

abbrev plain : Formats
plain = record {
  format_money = λ amount currency. codes currency;
  format_credits = λ n. n ∷ [];
  format_compact_credits = λ n. n ∷ [];
  format_units = λ n. n ∷ [];
  format_compact_units = λ n. n ∷ [];
  format_date_time = λ date. [];
}

abbrev url : String → String
url path = path

abbrev loaded_page : Live
loaded_page =
    other_event
      (loaded (resolved (payment_with "pending_proof")) (rejected (api_error "x" 404 none)))
      (record { page = initial; uploads = 0 })

abbrev picked_page : Live
picked_page = other_event (picked (some receipt)) loaded_page

submit_offered : has (sends is_submit) (view plain url picked_page.page) ≡ true
unfolding step after_load watch_status initial can_upload_proof
submit_offered = has-view is_submit plain url picked_page.page ∙ refl

Reach-OneUpload_example :
    ((submitting picked_page).uploads ≤ 1)
    × ((submitting picked_page).uploads ≡ tally (submitting picked_page).page.uploading)
Reach-OneUpload_example = Reach-OneUpload plain url (
    moved
      (moved
        (moved opened (
          happened
            (loaded (resolved (payment_with "pending_proof")) (rejected (api_error "x" 404 none)))
            tt))
        (happened (picked (some receipt)) tt))
      (clicked submit_offered))

abbrev happenings : List Happening
happenings =
    page_event (refreshed true (resolved (payment_with "paid"))) ∷ key_pressed "Escape" ∷ left ∷ []

happen_all-overflow_example :
    (happen_all happenings (D.opened "auto" waiting_page)).overflow
    ≡ (if is_open (happen_all happenings (D.opened "auto" waiting_page)) then "hidden" else "auto")
happen_all-overflow_example = happen_all-overflow "auto" waiting_page happenings refl

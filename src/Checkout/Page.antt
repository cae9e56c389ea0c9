-- ===== src/Checkout/Page.antt =====
-- The state of `CheckoutPage` and its handlers, each in two parts: up to its call, and from the
-- call's answer. The parts of several calls, and of the timer's quiet refreshes, may come in any
-- order.
pub mod Laws
pub mod Polling
pub mod Dialog
use slai.Base.{
  Bool, true, false, not, ◌&&◌, ◌||◌, List, [], ◌∷◌, Option, none, some, String, if◌then◌else◌,
  str_eq,
}
use slai.Text.{Str, trim, truthy}
use slai.Api.Errors.{Failure, Outcome, resolved, rejected, readable_error}
use slai.Checkout.Status.{Payment, File, reference_for, is_set, is_auto_refreshed}

-- `PaymentSettings`, the fields that the page reads.
pub record Settings : Type 0 where
  pub account_name : Option String
  pub account_id : Option String
  pub khqr_image_url : Option String
  pub instructions : Option String

pub record Checkout : Type 0 where
  pub payment : Option Payment
  pub settings : Option Settings
  pub loading : Bool
  pub refreshing : Bool
  pub uploading : Bool
  pub error : Option String
  pub notice : Option String
  pub upload_error : Option String
  pub selected_file : Option File
  pub transaction_ref : Str
  pub note : Str
  pub copied_reference : Bool
  pub show_payment_success : Bool
  pub previous_payment_status : Option String

unfoldable pub initial : Checkout
initial = record {
  payment = none;
  settings = none;
  loading = true;
  refreshing = false;
  uploading = false;
  error = none;
  notice = none;
  upload_error = none;
  selected_file = none;
  transaction_ref = [];
  note = [];
  copied_reference = false;
  show_payment_success = false;
  previous_payment_status = none;
}

abbrev pub is_not_paid : Option String → Bool
is_not_paid none = false
is_not_paid (some status) = not (str_eq status "paid")

-- The effect on the payment's status: the success dialog opens when a status that was seen before
-- turns into paid. It runs when the status changes; run again on the same status it
-- changes nothing, which is how `set_payment` may always run it.
unfoldable pub watch_status : Checkout → Checkout
watch_status s = elim s.payment [
  | none ↦ s
  | some p ↦ record s {
    show_payment_success =
        (str_eq p.status "paid" && is_not_paid s.previous_payment_status) || s.show_payment_success;
    previous_payment_status =
        if not (str_eq p.status "") then some p.status else s.previous_payment_status;
  }
]

-- `setPayment`, and the effect that follows.
abbrev pub set_payment : Payment → Checkout → Checkout
set_payment p s = watch_status (record s { payment = some p })

abbrev settings_of : Outcome Settings → Option Settings
settings_of (resolved x) = some x
settings_of (rejected _) = none

unfoldable pub start_load : Checkout → Checkout
start_load s = record s { loading = true; error = none }

unfoldable pub after_load : Checkout → Outcome Payment → Outcome Settings → Checkout
unfolding watch_status
after_load s (resolved p) settings =
    set_payment p (record s { settings = settings_of settings; loading = false })
after_load s (rejected e) settings = record s { error = some (readable_error e); loading = false }

abbrev refresh_notice : Payment → String
refresh_notice p =
    if str_eq p.status "paid"
    then "Payment confirmed and credits added."
    else "Payment status refreshed."

unfoldable pub start_refresh : (quiet : Bool) → Checkout → Checkout
start_refresh true s = s
start_refresh false s = record s { refreshing = true; notice = none; error = none }

unfoldable pub after_refresh : (quiet : Bool) → Checkout → Outcome Payment → Checkout
unfolding watch_status
after_refresh true s (resolved p) = set_payment p s
after_refresh true s (rejected e) = s
after_refresh false s (resolved p) =
    set_payment p (record s { notice = some (refresh_notice p); refreshing = false })
after_refresh false s (rejected e) = record s {
  error = some (readable_error e);
  refreshing = false;
}

pub record ProofForm : Type 0 where
  pub file : File
  pub transaction_ref : Option Str
  pub note : Option Str

-- `if (value.trim()) formData.set(key, value.trim())`
abbrev optional_field : Str → Option Str
optional_field value = if truthy (trim value) then some (trim value) else none

unfoldable pub proof_form : File → Checkout → ProofForm
proof_form file s = record {
  file = file;
  transaction_ref = optional_field s.transaction_ref;
  note = optional_field s.note;
}

unfoldable pub after_upload : Checkout → Outcome Payment → Checkout
unfolding watch_status
after_upload s (resolved p) = set_payment p (record s {
  selected_file = none;
  transaction_ref = [];
  note = [];
  notice = some "Payment proof submitted. Your payment is waiting for admin review.";
  uploading = false;
})
after_upload s (rejected e) = record s { upload_error = some (readable_error e); uploading = false }

unfoldable pub send_proof : Option File → Checkout → Checkout × List ProofForm
unfolding proof_form
send_proof none s = (
  record s {
    upload_error = some "Choose a screenshot, receipt image, or PDF before submitting proof.";
    notice = none;
  },
  [],
)
send_proof (some file) s =
    (record s { upload_error = none; notice = none; uploading = true }, proof_form file s ∷ [])

-- `submitProof` up to its call, if it makes one.
unfoldable pub submit_proof : Checkout → Checkout × List ProofForm
unfolding send_proof
submit_proof s = send_proof s.selected_file s

abbrev pub checkout_reference : Checkout → String
checkout_reference s = elim s.payment [ none ↦ "" | some p ↦ reference_for p ]

-- `copyReference`, with the answer of the clipboard; a success is taken back after 1.6 seconds.
unfoldable pub copy_reference : Checkout → Outcome (Unit {0}) → Checkout
unfolding reference_for
copy_reference s (resolved _) =
    if str_eq (checkout_reference s) "" then s else record s { copied_reference = true }
copy_reference s (rejected _) =
    if str_eq (checkout_reference s) "" then s else record s { copied_reference = false }

-- `url ? asset_url(url) : null`
abbrev set_url : (asset_url : String → String) → Option String → Option String
set_url asset_url none = none
set_url asset_url (some url) = if str_eq url "" then none else some (asset_url url)

-- `asset_url` is `apiAssetUrl` of the API client.
abbrev stored_image : (asset_url : String → String) → Option Settings → Option String
stored_image asset_url none = none
stored_image asset_url (some x) = set_url asset_url x.khqr_image_url

unfoldable pub qr_image_src : (asset_url : String → String) → Checkout → Option String
qr_image_src asset_url s =
    let stored = stored_image asset_url s.settings in
    elim s.payment [
      | none ↦ stored
      | some p ↦ if is_set p.qr_image_data_uri then p.qr_image_data_uri else stored
    ]

pub data Event : Type 0 where
  load_started : Event
  loaded : (answer : Outcome Payment) (settings : Outcome Settings) → Event
  refresh_started : (quiet : Bool) → Event
  refreshed : (quiet : Bool) (answer : Outcome Payment) → Event
  picked : (file : Option File) → Event
  typed_ref typed_note : (value : Str) → Event
  submitted : Event
  uploaded : (answer : Outcome Payment) → Event
  copied : (answer : Outcome (Unit {0})) → Event
  copy_expired : Event
  closed_success : Event

unfoldable pub step : Checkout → Event → Checkout × List ProofForm
unfolding start_load after_load start_refresh after_refresh submit_proof after_upload copy_reference
step s load_started = (start_load s, [])
step s (loaded answer settings) = (after_load s answer settings, [])
step s (refresh_started quiet) = (start_refresh quiet s, [])
step s (refreshed quiet answer) = (after_refresh quiet s answer, [])
step s (picked file) = (record s { selected_file = file }, [])
step s (typed_ref value) = (record s { transaction_ref = value }, [])
step s (typed_note value) = (record s { note = value }, [])
step s submitted = submit_proof s
step s (uploaded answer) = (after_upload s answer, [])
step s (copied answer) = (copy_reference s answer, [])
step s copy_expired = (record s { copied_reference = false }, [])
step s closed_success = (record s { show_payment_success = false }, [])

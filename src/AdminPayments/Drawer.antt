-- ===== src/AdminPayments/Drawer.antt =====
-- `PaymentDrawer` of apps/web/src/app/admin/payments/page.tsx: its three fields, its guards, and
-- what it shows of the selected payment.
pub mod Laws
use slai.Base.{
  ltb, Bool, true, false, not, ◌&&◌, ◌||◌, List, [], ◌∷◌, ◌++◌, Option, none, some, String, codes,
  if◌then◌else◌, str_eq,
}
use slai.Text.{Str, trim, truthy, equals, starts_with, has_text}
use slai.Format.{truncate_id}
use slai.Badge.{BadgeTone}
use slai.Api.Endpoints.{build_url}
use slai.Checkout.Status.{status_label}
use slai.Markup.{
  Node, Nodes, text, say, badge, field, image, link, button, when, either, given, text_or, label_if,
  str_or, field_if, codes_of, Formats,
}
use slai.Markup.Parts.{input_field}
use slai.AdminPayments.{Item, Proof, status_tone, format_provider, can_approve, can_reject}
use slai.AdminPayments as P

pub record Fields : Type 0 where
  pub reference : Str
  pub note : Str
  pub reason : Str

abbrev pub no_fields : Fields
no_fields = record { reference = []; note = []; reason = [] }

abbrev same_id : Option String → Option String → Bool
same_id none none = true
same_id (some a) (some b) = str_eq a b
same_id none (some b) = false
same_id (some a) none = false

abbrev pub id_of : Option Item → Option String
id_of none = none
id_of (some p) = some p.id

-- The effect on `payment?.id`, when the drawer is given another payment or none.
unfoldable pub follow : (before after : Option Item) → Fields → Fields
follow before after f = if same_id (id_of before) (id_of after) then f else no_fields

pub data Click : Type 0 where
  typed : (label : String) → Click
  approve reject close : Click

abbrev pub badge_tone : P.BadgeTone → BadgeTone
badge_tone P.neutral = BadgeTone.neutral
badge_tone P.green = BadgeTone.green
badge_tone P.red = BadgeTone.red
badge_tone P.yellow = BadgeTone.yellow
badge_tone P.blue = BadgeTone.blue

abbrev is_pdf : Option Proof → Bool
is_pdf none = false
is_pdf (some proof) = equals proof.file_mime (codes "application/pdf")

abbrev is_image : Option Proof → Bool
is_image none = false
is_image (some proof) = starts_with (codes "image/") proof.file_mime

unfoldable pub proof_url : Item → Str
unfolding build_url
proof_url p = build_url (codes "/v1/admin/payments/" ++ codes p.id ++ codes "/proof")

unfoldable pub header : Item → Nodes Click
unfolding status_tone status_label truncate_id
header p =
    say "Payment review"
    ∷ say "Payment review"
    ∷ badge (badge_tone (status_tone p.status)) (status_label (codes p.status))
    ∷ text (truncate_id (some (codes p.id)) 12 8)
    ∷ button (codes "Close") false close
    ∷ []

unfoldable pub alerts : Item → (action_error notice : Option String) → Nodes Click
alerts p action_error notice =
    given notice (λ message. say message ∷ [])
    ++ given action_error (λ message. say message ∷ [])
    ++ when (ltb 0 p.duplicate_proof_count) (
        say "This proof file hash appears on another payment. Verify carefully before approval."
        ∷ [])
    ++ when (str_eq p.status "needs_review") (
        say
          "This payment was flagged for review by the payment provider. Verify the exact payment amount, account, and reference before approving credits."
        ∷ [])

unfoldable pub approve_form : (action_loading : Bool) → Fields → Nodes Click
unfolding input_field trim
approve_form action_loading f =
    say "Approve payment"
      ∷ say "Enter the reference shown in Bakong after you verify the payment."
      ∷ input_field "Verified payment reference" none f.reference
          (typed "Verified payment reference")
    ++ input_field "Admin note optional" none f.note (typed "Admin note optional")
    ++ button (label_if action_loading "Working" "Approve and credit")
        (action_loading || not (truthy (trim f.reference))) approve
      ∷ []

unfoldable pub reject_form : (action_loading : Bool) → Fields → Nodes Click
unfolding input_field trim
reject_form action_loading f =
    say "Reject payment"
      ∷ say "Rejecting never credits the account."
      ∷ input_field "Rejection reason" none f.reason (typed "Rejection reason")
    ++ button (label_if action_loading "Working" "Reject")
        (action_loading || not (truthy (trim f.reason))) reject
      ∷ []

-- The first of two texts that is there.
abbrev first : Option Str → Option Str → Option Str
first none other = other
first (some s) other = some s

module _ (formats : Formats) where
  unfoldable pub summary_section : Item → Nodes Click
  unfolding format_provider status_label
  summary_section p =
      say "Payment summary"
        ∷ say "Expected package amount and account credit details."
        ∷ field (codes "User") (codes p.user_email)
        ∷ field (codes "User ID") p.user_id
        ∷ field (codes "Package") (text_or p.package_name "-")
        ∷ field (codes "Expected amount") (formats.format_money p.amount_minor p.currency)
        ∷ field (codes "Credit units") (formats.format_credits p.credit_units)
        ∷ field (codes "Provider") (codes (format_provider p.provider))
        ∷ field (codes "Created") (formats.format_date_time (some p.created_at))
        ∷ field (codes "Status") (status_label (codes p.status))
        ∷ field_if "Provider status" (codes_of p.provider_status)
      ++ field_if "Checkout reference" p.checkout_reference

  abbrev pub proof_fields : Proof → Nodes Click
  proof_fields proof =
      field (codes "Uploaded") (formats.format_date_time (some proof.uploaded_at))
        ∷ field (codes "File") (proof.file_name ++ codes " / " ++ proof.file_mime)
        ∷ field (codes "File size") (formats.format_units proof.file_size ++ codes " bytes")
        ∷ field_if "User transaction ref" (codes_of proof.user_transaction_ref)
      ++ field_if "User note" (codes_of proof.user_note)

  abbrev hash_field : Option Str → Nodes Click
  hash_field hash = when (has_text hash) (field (codes "Proof hash") (truncate_id hash 12 8) ∷ [])

  unfoldable pub proof_section : Item → Nodes Click
  unfolding truncate_id proof_url
  proof_section p =
      say "User-submitted proof"
        ∷ say "Review uploaded evidence before approving any credits."
        ∷ field (codes "Proof") (codes (if p.proof_uploaded then "Uploaded" else "Missing"))
        ∷ field (codes "Duplicate proof count") (formats.format_units p.duplicate_proof_count)
        ∷ given p.proof proof_fields
      ++ hash_field p.proof_file_sha256
      ++ either p.proof_uploaded
          (when (is_image p.proof) (image (codes "Payment proof") (proof_url p) ∷ [])
            ++ when (is_pdf p.proof) (link (proof_url p) (codes "Open proof PDF") ∷ [])
            ++ when (not (is_image p.proof) && not (is_pdf p.proof))
                (link (proof_url p) (codes "View proof") ∷ []))
          (say "No proof has been uploaded for this payment." ∷ [])

  unfoldable pub paid_fields : Item → Nodes Click
  paid_fields p =
      field (codes "Verified reference")
        (str_or (first p.admin_payment_reference p.provider_transaction_id) "-")
      ∷ field (codes "Reviewed by") (text_or p.reviewed_by_admin_email "-")
      ∷ field (codes "Reviewed at") (formats.format_date_time p.reviewed_at)
      ∷ field (codes "Paid at") (formats.format_date_time p.paid_at)
      ∷ say "Ledger credit has been applied for this payment."
      ∷ []

  unfoldable pub rejected_fields : Item → Nodes Click
  rejected_fields p =
      field (codes "Rejection reason") (text_or p.rejection_reason "-")
      ∷ field (codes "Reviewed by") (text_or p.reviewed_by_admin_email "-")
      ∷ field (codes "Reviewed at") (formats.format_date_time p.reviewed_at)
      ∷ []

  unfoldable pub verification_section : Item → (action_loading : Bool) → Fields → Nodes Click
  verification_section p action_loading f =
      say "Admin verification"
        ∷ say "Approve only after matching the payment in Bakong."
        ∷ when (can_approve p) (approve_form action_loading f)
      ++ when (str_eq p.status "paid") (paid_fields p)
      ++ when (str_eq p.status "rejected") (rejected_fields p)
      ++ when (can_reject p) (reject_form action_loading f)

  unfoldable pub drawer :
      Option Item
      → (action_loading : Bool) (action_error notice : Option String) → Fields
      → Nodes Click
  drawer none action_loading action_error notice f = []
  drawer (some p) action_loading action_error notice f =
      header p
      ++ alerts p action_error notice
      ++ summary_section p
      ++ proof_section p
      ++ verification_section p action_loading f

-- ===== src/Checkout/Page/Laws.antt =====
-- When the success dialog opens, what a quiet refresh may touch, and what is sent as a proof.
use slai.Base.{
  ◌≡◌, ◌≢◌, ◌↔◌, refl, Bool, true, false, not, ◌&&◌, ◌||◌, List, [], ◌∷◌, Option, none, some,
  String, str_eq, eq_iff, arith, Bool-cases, inl, inr, ◌∙◌, if_split,
}
use slai.Api.Errors.{Failure, Outcome, resolved, rejected, readable_error}
use slai.Checkout.Status.{Payment, File}
use slai.Checkout.Page.{
  Checkout, is_not_paid, after_load, start_refresh, after_refresh, ProofForm, proof_form,
  send_proof, submit_proof, after_upload, checkout_reference, copy_reference, Event, load_started,
  loaded, refresh_started, refreshed, picked, typed_ref, typed_note, submitted, uploaded, copied,
  copy_expired, closed_success, step,
}

-- The payment that an event brings.
abbrev pub arrives : Event → Option Payment
arrives (loaded (resolved p) settings) = some p
arrives (refreshed quiet (resolved p)) = some p
arrives (uploaded (resolved p)) = some p
arrives _ = none

abbrev pub IsOtherThanPaid : Option String → Type 0
IsOtherThanPaid none = ⊥
IsOtherThanPaid (some status) = status ≢ "paid"

-- A paid payment arrives, and the status that was seen last was another one.
abbrev pub TurnsPaid : Option Payment → Option String → Type 0
TurnsPaid none seen = ⊥
TurnsPaid (some p) seen = (p.status ≡ "paid") × IsOtherThanPaid seen

str_eq-false : (a b : String) → a ≢ b → str_eq a b ≡ false
str_eq-false a b h = elim (Bool-cases (str_eq a b)) [
  | inl e ↦ absurd (h ((eq_iff a b).0 e))
  | inr e ↦ e
]

differ : (b : Bool) → b ≡ true → not b ≡ true → ⊥
differ b h k = ground arith

is_not_paid_iff : (seen : Option String) → (is_not_paid seen ≡ true) ↔ IsOtherThanPaid seen
is_not_paid_iff none = ground arith
is_not_paid_iff (some v) = (
  λ h e. differ (str_eq v "paid") ((eq_iff v "paid").1 e) h,
  λ k. rw (str_eq-false v "paid" k) refl,
)

both : (a b c : Bool) → c ≡ false → ((a && b || c) ≡ true) ↔ ((a ≡ true) × (b ≡ true))
both a b c h = ground arith

news_iff :
    (p : Payment) (seen : Option String) (b : Bool)
    → b ≡ false
    → ((str_eq p.status "paid" && is_not_paid seen || b) ≡ true) ↔ TurnsPaid (some p) seen
news_iff p seen b h =
    let test = both (str_eq p.status "paid") (is_not_paid seen) b h in
    (
      λ k. let (a, c) = test.0 k in ((eq_iff p.status "paid").0 a, (is_not_paid_iff seen).0 c),
      λ k. test.1 ((eq_iff p.status "paid").1 k.0, (is_not_paid_iff seen).1 k.1),
    )

none_opens : {b : Bool} → b ≡ false → (b ≡ true) ↔ ⊥
none_opens h = ground arith

send-show :
    (file : Option File) (s : Checkout)
    → (send_proof file s).0.show_payment_success ≡ s.show_payment_success
unfolding send_proof
send-show none s = refl
send-show (some file) s = refl

copy-show :
    (s : Checkout) (answer : Outcome (Unit {0}))
    → (copy_reference s answer).show_payment_success ≡ s.show_payment_success
unfolding copy_reference
copy-show s (resolved u) = if_split Same (str_eq (checkout_reference s) "") (λ e. refl) (λ e. refl)
  where
    Same : Checkout → Type 0
    Same t = t.show_payment_success ≡ s.show_payment_success
copy-show s (rejected x) = if_split Same (str_eq (checkout_reference s) "") (λ e. refl) (λ e. refl)
  where
    Same : Checkout → Type 0
    Same t = t.show_payment_success ≡ s.show_payment_success

-- When the success dialog is closed, an event opens it exactly when it brings a payment that is
-- paid and the status that the page had seen before was another one.
pub step-opens_iff :
    (s : Checkout) (e : Event)
    → s.show_payment_success ≡ false
    → ((step s e).0.show_payment_success ≡ true) ↔ TurnsPaid (arrives e) s.previous_payment_status
unfolding step after_load after_refresh start_refresh submit_proof
step-opens_iff s (loaded (resolved p) settings) h =
    news_iff p s.previous_payment_status s.show_payment_success h
step-opens_iff s (loaded (rejected x) settings) h = none_opens h
step-opens_iff s (refreshed true (resolved p)) h =
    news_iff p s.previous_payment_status s.show_payment_success h
step-opens_iff s (refreshed true (rejected x)) h = none_opens h
step-opens_iff s (refreshed false (resolved p)) h =
    news_iff p s.previous_payment_status s.show_payment_success h
step-opens_iff s (refreshed false (rejected x)) h = none_opens h
step-opens_iff s (picked file) h = none_opens h
step-opens_iff s (typed_ref value) h = none_opens h
step-opens_iff s (typed_note value) h = none_opens h
step-opens_iff s submitted h = none_opens (send-show s.selected_file s ∙ h)
step-opens_iff s (uploaded (resolved p)) h =
    news_iff p s.previous_payment_status s.show_payment_success h
step-opens_iff s (uploaded (rejected x)) h = none_opens h
step-opens_iff s load_started h = none_opens h
step-opens_iff s (refresh_started true) h = none_opens h
step-opens_iff s (refresh_started false) h = none_opens h
step-opens_iff s (copied answer) h = none_opens (copy-show s answer ∙ h)
step-opens_iff s copy_expired h = none_opens h
step-opens_iff s closed_success h = none_opens refl

-- What submitting does: without a file nothing is sent and a message asks for one; a file is sent
-- with the form's fields, and the payment and the form stay until the answer.
pub data Sent (s : Checkout) : Option File → Checkout × List ProofForm → Type 0 where
  no_file : {t : Checkout} → t.payment ≡ s.payment → t.upload_error ≢ none → Sent s none (t, [])
  sending :
      {file : File} {t : Checkout}
      → (t.payment ≡ s.payment) × (t.selected_file ≡ some file)
      → (t.transaction_ref ≡ s.transaction_ref) × (t.note ≡ s.note)
      → (t.upload_error ≡ none) × (t.uploading ≡ true)
      → Sent s (some file) (t, proof_form file s ∷ [])

-- What the answer to a proof does: an accepted proof makes its payment the page's and empties the
-- form; a refused one keeps both and shows the error.
pub data Answered (s : Checkout) : Outcome Payment → Checkout → Type 0 where
  accepted :
      {p : Payment} {t : Checkout}
      → t.payment ≡ some p
      → (t.selected_file ≡ none) × (t.transaction_ref ≡ []) × (t.note ≡ [])
      → (t.upload_error ≡ s.upload_error) × (t.uploading ≡ false)
      → Answered s (resolved p) t
  refused :
      {e : Failure} {t : Checkout}
      → t.payment ≡ s.payment
      → (t.selected_file ≡ s.selected_file)
        × (t.transaction_ref ≡ s.transaction_ref)
        × (t.note ≡ s.note)
      → (t.upload_error ≡ some (readable_error e)) × (t.uploading ≡ false)
      → Answered s (rejected e) t

some-not-none {ℓ} : {A : Type ℓ} {a : A} → some a ≢ none
some-not-none h = cc

send-Sent :
    (file : Option File) (s : Checkout) → s.selected_file ≡ file → Sent s file (send_proof file s)
unfolding send_proof
send-Sent none s h = no_file refl some-not-none
send-Sent (some file) s h = sending (refl, h) (refl, refl) (refl, refl)

answer-Answered :
    (s : Checkout) (answer : Outcome Payment) → Answered s answer (after_upload s answer)
unfolding after_upload
answer-Answered s (resolved p) = accepted refl (refl, refl, refl) (refl, refl)
answer-Answered s (rejected e) = refused refl (refl, refl, refl) (refl, refl)

-- Submitting a proof without a selected file sends nothing, keeps the payment and sets an upload
-- error; with one it sends the file with the form's fields and keeps the payment and the form. An
-- accepted answer makes its payment the page's and empties the form; a refused one keeps the
-- payment and the form and shows the error; the upload is over in both.
pub submit-Sent :
    (s t : Checkout) (answer : Outcome Payment)
    → Sent s s.selected_file (submit_proof s) × Answered t answer (after_upload t answer)
unfolding submit_proof
submit-Sent s t answer = (send-Sent s.selected_file s refl, answer-Answered t answer)

-- ===== src/Checkout/View/Uploads.antt =====
-- The checkout page used through the controls that it shows: how many uploads are under way.
use slai.Base.{
  ℕ, suc, ◌+◌, ◌≤◌, ◌≡◌, refl, Bool, true, false, String, arith, inl, inr, tally, length,
  Option-cases, subst, sym, ap, ◌∙◌,
}
use slai.Api.Errors.{Outcome, resolved, rejected}
use slai.Markup.{Formats, has, sends}
use slai.Checkout.Status.{Payment}
use slai.Checkout.Page.{
  Checkout, initial, submit_proof, after_upload, after_load, after_refresh, start_load,
  start_refresh, copy_reference, watch_status, Event, load_started, loaded, refresh_started,
  refreshed, picked, typed_ref, typed_note, submitted, uploaded, copied, copy_expired,
  closed_success, step,
}
use slai.Checkout.View.{Click, typed, picked_file, retry, check_status, submit, copy, close, view}
use slai.Checkout.View.Laws.{should_offer, has-view}

abbrev pub is_submit : Click → Bool
is_submit submit = true
is_submit retry = false
is_submit (typed label) = false
is_submit picked_file = false
is_submit check_status = false
is_submit copy = false
is_submit close = false

-- A page with the number of its uploads that have no answer yet.
pub record Live : Type 0 where
  pub page : Checkout
  pub uploads : ℕ

-- An event other than the submission and the answer of an upload.
abbrev pub IsOther : Event → Type 0
IsOther submitted = ⊥
IsOther (uploaded answer) = ⊥
IsOther _ = Unit {0}

abbrev pub submitting : Live → Live
submitting l = record {
  page = (submit_proof l.page).0;
  uploads = l.uploads + length (submit_proof l.page).1;
}

abbrev pub other_event : Event → Live → Live
other_event e l = record { page = (step l.page e).0; uploads = l.uploads }

module _ (formats : Formats) (asset_url : String → String) where
  -- The customer submits by the button, while it can be used; an upload that has no answer is
  -- answered; or anything else happens.
  pub data Move : Live → Live → Type 0 where
    clicked :
        {l : Live}
        → has (sends is_submit) (view formats asset_url l.page) ≡ true
        → Move l (submitting l)
    answered :
        {s : Checkout} {n : ℕ} (answer : Outcome Payment)
        → Move
            (record { page = s; uploads = suc n })
            (record { page = after_upload s answer; uploads = n })
    happened : {l : Live} (e : Event) → IsOther e → Move l (other_event e l)

  pub data Reach : Live → Type 0 where
    opened : Reach (record { page = initial; uploads = 0 })
    moved : {l l' : Live} → Reach l → Move l l' → Reach l'

  abbrev pub Inv : Live → Type 0
  Inv l = l.uploads ≡ tally l.page.uploading

step-uploading : (s : Checkout) (e : Event) → IsOther e → (step s e).0.uploading ≡ s.uploading
unfolding watch_status step start_load after_load start_refresh after_refresh copy_reference
step-uploading s load_started h = refl
step-uploading s (loaded (resolved p) settings) h = refl
step-uploading s (loaded (rejected e) settings) h = refl
step-uploading s (refresh_started true) h = refl
step-uploading s (refresh_started false) h = refl
step-uploading s (refreshed true (resolved p)) h = refl
step-uploading s (refreshed false (resolved p)) h = refl
step-uploading s (refreshed true (rejected e)) h = refl
step-uploading s (refreshed false (rejected e)) h = refl
step-uploading s (picked file) h = refl
step-uploading s (typed_ref value) h = refl
step-uploading s (typed_note value) h = refl
step-uploading s submitted h = absurd h
step-uploading s (uploaded answer) h = absurd h
step-uploading s (copied answer) h = ground arith
step-uploading s copy_expired h = refl
step-uploading s closed_success h = refl

after_upload-uploading :
    (s : Checkout) (answer : Outcome Payment) → (after_upload s answer).uploading ≡ false
unfolding after_upload watch_status
after_upload-uploading s (resolved p) = refl
after_upload-uploading s (rejected e) = refl

offered-uploading : (s : Checkout) → should_offer is_submit s ≡ true → s.uploading ≡ false
offered-uploading s h = ground arith

module _ (formats : Formats) (asset_url : String → String) where
  -- A submission from a page with no upload under way.
  submitting-Inv :
      (s : Checkout)
      → s.uploading ≡ false
      → Inv formats asset_url (submitting (record { page = s; uploads = 0 }))
  unfolding submit_proof
  submitting-Inv s h = elim (Option-cases s.selected_file) [
    | inl e ↦ rw e (rw h refl)
    | inr (file, e) ↦ rw e refl
  ]

  free :
      (l : Live)
      → has (sends is_submit) (view formats asset_url l.page) ≡ true
      → l.page.uploading ≡ false
  free l h = offered-uploading l.page (sym (has-view is_submit formats asset_url l.page) ∙ h)

  Move-Inv :
      {l l' : Live}
      → Inv formats asset_url l
      → Move formats asset_url l l'
      → Inv formats asset_url l'
  Move-Inv {l} i (clicked offered) =
      subst (λ n. Inv formats asset_url (submitting (record { page = l.page; uploads = n })))
        (sym (i ∙ ap tally (free l offered))) (submitting-Inv l.page (free l offered))
  Move-Inv i (answered {s} {n} answer) = rw (after_upload-uploading s answer) (grind arith)
  Move-Inv {l} i (happened e h) = i ∙ ap tally (sym (step-uploading l.page e h))

  Reach-Inv : {l : Live} → Reach formats asset_url l → Inv formats asset_url l
  unfolding initial
  Reach-Inv opened = refl
  Reach-Inv (moved r m) = Move-Inv (Reach-Inv r) m

  -- However a customer uses the controls that the page shows, and in whatever order the answers,
  -- checks, edits and timers come, at most one upload of a proof is under way, and one is
  -- exactly while the page says so.
  pub Reach-OneUpload :
      {l : Live}
      → Reach formats asset_url l
      → (l.uploads ≤ 1) × (l.uploads ≡ tally l.page.uploading)
  Reach-OneUpload {l} r = (bound l.page.uploading (Reach-Inv r), Reach-Inv r)
    where
      bound : (b : Bool) {n : ℕ} → n ≡ tally b → n ≤ 1
      bound true h = omega arith
      bound false h = omega arith

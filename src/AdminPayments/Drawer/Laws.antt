-- ===== src/AdminPayments/Drawer/Laws.antt =====
-- Which actions the drawer of a payment offers, and for which text.
use slai.Base.{
  ◌≡◌, ◌≢◌, str_eq, eq_iff, refl, Bool, false, not, ◌&&◌, ◌||◌, Option, none, some, String, arith,
  Option-cases, inl, inr, [], ◌∷◌,
}
use slai.Text.{Str, trim, truthy}
use slai.Markup.{Formats, has, sends, field_if}
use slai.Markup.Laws.{parts, has-append}
use slai.AdminPayments.{Item, can_approve, can_reject}
use slai.AdminPayments.Drawer.{
  Fields, no_fields, follow, Click, typed, approve, reject, close, header, alerts, approve_form,
  reject_form, summary_section, proof_section, paid_fields, rejected_fields, verification_section,
  drawer,
}

-- A payment that waits for a review, and one that waits for a review or for its proof.
abbrev pub waits_for_review : (status : String) → Bool
waits_for_review status = str_eq status "needs_review" || str_eq status "pending_review"

abbrev pub waits : (status : String) → Bool
waits status = str_eq status "pending_proof" || waits_for_review status

-- The controls of an approval, and those of a rejection.
abbrev pub approval : (Click → Bool) → (busy : Bool) → Fields → Bool
approval p busy f =
    p (typed "Verified payment reference")
    || p (typed "Admin note optional")
    || (not busy && truthy (trim f.reference) && p approve)

abbrev pub rejection : (Click → Bool) → (busy : Bool) → Fields → Bool
rejection p busy f =
    p (typed "Rejection reason") || (not busy && truthy (trim f.reason) && p reject)

-- The buttons and the fields for a shown payment.
abbrev pub should_offer : (Click → Bool) → Item → (busy : Bool) → Fields → Bool
should_offer p payment busy f =
    p close
    || (waits_for_review payment.status && approval p busy f)
    || (waits payment.status && rejection p busy f)

module _ (p : Click → Bool) where
  offers-field_if : (label : String) (o : Option Str) → has (sends p) (field_if label o) ≡ false
  unfolding has
  offers-field_if label none = refl
  offers-field_if label (some []) = refl
  offers-field_if label (some (c ∷ s)) = refl

  offers-header : (payment : Item) → has (sends p) (header payment) ≡ p close
  unfolding has header
  offers-header payment = ground arith

  offers-alerts :
      (payment : Item) (error notice : Option String)
      → has (sends p) (alerts payment error notice) ≡ false
  unfolding has alerts
  offers-alerts payment error notice = ground arith

  offers-approve_form :
      (busy : Bool) (f : Fields) → has (sends p) (approve_form busy f) ≡ approval p busy f
  unfolding has approve_form
  offers-approve_form busy f = ground arith

  offers-reject_form :
      (busy : Bool) (f : Fields) → has (sends p) (reject_form busy f) ≡ rejection p busy f
  unfolding has reject_form
  offers-reject_form busy f = ground arith

  module _ (formats : Formats) where
    offers-summary_section :
        (payment : Item) → has (sends p) (summary_section formats payment) ≡ false
    unfolding has summary_section
    offers-summary_section payment = simp (has-append, offers-field_if) refl

    offers-proof_section : (payment : Item) → has (sends p) (proof_section formats payment) ≡ false
    unfolding has proof_section
    offers-proof_section payment = elim (Option-cases payment.proof) [
      | inl e ↦ rw e (ground arith)
      | inr (proof, e) ↦ rw e (ground arith)
    ]

    offers-verification_section :
        (payment : Item) (busy : Bool) (f : Fields)
        → has (sends p) (verification_section formats payment busy f) ≡ (
            (waits_for_review payment.status && approval p busy f)
            || (waits payment.status && rejection p busy f))
    unfolding has verification_section paid_fields rejected_fields can_approve can_reject
    offers-verification_section payment busy f =
        simp (parts, offers-approve_form, offers-reject_form) (ground arith)

    -- The buttons and fields that can be used in the drawer of a payment are exactly: closing it;
    -- where the status is "needs_review" or "pending_review", the fields of the reference and the
    -- note, and approving, while no call runs and the reference is more than white space; and where
    -- it is one of these or "pending_proof", the field of the reason, and rejecting, while no call
    -- runs and the reason is more than white space.
    pub has-drawer :
        (payment : Item) (busy : Bool) (error notice : Option String) (f : Fields)
        → has (sends p) (drawer formats (some payment) busy error notice f)
          ≡ should_offer p payment busy f
    unfolding drawer
    has-drawer payment busy error notice f =
        simp
          (
            parts, offers-header, offers-alerts, offers-summary_section, offers-proof_section,
            offers-verification_section,
          )
          (ground arith)

-- A text that was typed for one payment is gone when the drawer shows another.
pub follow-no_fields :
    (a b : Item) (f : Fields) → a.id ≢ b.id → follow (some a) (some b) f ≡ no_fields
unfolding follow
follow-no_fields a b f h = ground (arith, eq_iff a.id b.id)

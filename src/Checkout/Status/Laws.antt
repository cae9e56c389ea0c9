-- ===== src/Checkout/Status/Laws.antt =====
-- What the statuses mean, against their names.
use slai.Base.{
  ◌≡◌, ◌≢◌, ◌↔◌, ◌⊎◌, refl, true, false, String, str_eq, eq_iff, inl, inr, if_split, ||-true, subst,
}
use slai.Checkout.Status.{
  Payment, neutral, StatusCopy, payment_tone, status_copy, can_upload_proof, can_view_proof,
  is_auto_payment, ProofPanel, upload_form, proof_panel, is_auto_refreshed,
}

-- The form for a proof is shown exactly for a payment that waits for a proof or whose proof was
-- rejected.
proof_panel-upload_iff :
    (p : Payment)
    → (proof_panel p ≡ upload_form) ↔ ((p.status ≡ "pending_proof") ⊎ (p.status ≡ "rejected"))
unfolding proof_panel
proof_panel-upload_iff p = (to, from)
  where
    Names : ProofPanel → Type 0
    Names panel = panel ≡ upload_form → (p.status ≡ "pending_proof") ⊎ (p.status ≡ "rejected")

    to : Names (proof_panel p)
    to =
        if_split Names (can_upload_proof p)
          (λ e k. elim (||-true (str_eq p.status "pending_proof") (str_eq p.status "rejected") e) [
            | inl h ↦ inl ((eq_iff p.status "pending_proof").0 h)
            | inr h ↦ inr ((eq_iff p.status "rejected").0 h)
          ])
          (λ e.
            if_split Names (can_view_proof p) (λ f k. cc)
              (λ f. if_split Names (is_auto_payment p) (λ g k. cc) (λ g k. cc)))

    from : (p.status ≡ "pending_proof") ⊎ (p.status ≡ "rejected") → proof_panel p ≡ upload_form
    from (inl h) = rw h refl
    from (inr h) = rw h refl

-- A payment whose status is refreshed by itself does not show the form for a proof.
refreshed-no_upload :
    (p : Payment) → is_auto_refreshed p.status ≡ true → proof_panel p ≢ upload_form
unfolding is_auto_refreshed
refreshed-no_upload p h k = elim ((proof_panel-upload_iff p).0 k) [
  | inl e ↦ clash (subst (λ (t : String). is_auto_refreshed t ≡ true) e h)
  | inr e ↦ clash (subst (λ (t : String). is_auto_refreshed t ≡ true) e h)
]
  where
    clash : false ≡ true → ⊥
    clash q = cc

-- A status that is none of the eight has no tone.
unlisted :
    (status : String)
    → str_eq status "paid" ≡ false
    → str_eq status "pending_review" ≡ false
    → str_eq status "pending_proof" ≡ false
    → str_eq status "pending_payment" ≡ false
    → str_eq status "expired" ≡ false
    → str_eq status "needs_review" ≡ false
    → str_eq status "rejected" ≡ false
    → str_eq status "cancelled" ≡ false
    → payment_tone status ≡ neutral
unfolding payment_tone
unlisted status e0 e1 e2 e3 e4 e5 e6 e7 = rw (e0, e1, e2, e3, e4, e5, e6, e7) refl

-- The tone of the page's text for a payment is that of the status badge, for each status to which
-- the badge gives a tone.
status_copy-tone :
    (p : Payment) → payment_tone p.status ≢ neutral → (status_copy p).tone ≡ payment_tone p.status
unfolding status_copy payment_tone
status_copy-tone p h =
    if_split Agrees (str_eq p.status "paid") (λ e. rw ((eq_iff p.status "paid").0 e) refl)
      (λ e0.
        if_split Agrees (str_eq p.status "pending_review")
          (λ e. rw ((eq_iff p.status "pending_review").0 e) refl)
          (λ e1.
            if_split Agrees (str_eq p.status "pending_proof")
              (λ e. rw ((eq_iff p.status "pending_proof").0 e) refl)
              (λ e2.
                if_split Agrees (str_eq p.status "pending_payment")
                  (λ e. rw ((eq_iff p.status "pending_payment").0 e) refl)
                  (λ e3.
                    if_split Agrees (str_eq p.status "expired")
                      (λ e. rw ((eq_iff p.status "expired").0 e) refl)
                      (λ e4.
                        if_split Agrees (str_eq p.status "needs_review")
                          (λ e. rw ((eq_iff p.status "needs_review").0 e) refl)
                          (λ e5.
                            if_split Agrees (str_eq p.status "rejected")
                              (λ e. rw ((eq_iff p.status "rejected").0 e) refl)
                              (λ e6.
                                if_split Agrees (str_eq p.status "cancelled")
                                  (λ e. rw ((eq_iff p.status "cancelled").0 e) refl)
                                  (λ e7.
                                    absurd (h (unlisted p.status e0 e1 e2 e3 e4 e5 e6 e7))))))))))
  where
    Agrees : StatusCopy → Type 0
    Agrees c = c.tone ≡ payment_tone p.status

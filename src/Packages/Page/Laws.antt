-- ===== src/Packages/Page/Laws.antt =====
-- What saving a package does on every branch.
use slai.Base.{
  ◌≤◌, ◌≡◌, ◌≢◌, ◌⊎◌, refl, inl, inr, true, false, List, [], ◌∷◌, none, some, Bool-cases,
}
use slai.Text.{Str}
use slai.Api.Errors.{Failure, Outcome, resolved, rejected, readable_error}
use slai.Packages.{Units, CreditPackage, CreditNumber, not_finite, PackageInput}
use slai.Packages.Money.{max_safe_integer}
use slai.Packages.Credits.{credit_number}
use slai.Packages.Form.{validate_form, input, form_to_input}
use slai.Packages.Form.Laws.{valid-form_to_input}
use slai.Packages.Page.{
  Page, Panel, Call, create_package, update_package, set_active, list_packages, call_for,
  saved_notice, submit_package, save_input, after_save, banner_errors, form_errors,
}

-- What may be sent for the typed credits: a name, a price that is a safe integer, and more than no
-- credits, unless `Number` of the typed ones is Infinity.
abbrev pub IsSendable : (credits : Str) → PackageInput Units → Type 0
IsSendable credits i =
    (i.name ≢ [])
    × (i.price_minor ≤ max_safe_integer)
    × ((i.credit_units ≢ some 0) ⊎ (credit_number credits ≡ not_finite))

abbrev pub SendsValid : (credits : Str) → Call → Type 0
SendsValid credits (create_package i) = IsSendable credits i
SendsValid credits (update_package id i) = IsSendable credits i
SendsValid credits (set_active id active) = Unit
SendsValid credits list_packages = Unit

after_save-settled :
    (s : Page) (call : Call) (saved : Outcome (Unit {0})) (listed : Outcome (List CreditPackage))
    → (after_save s call saved listed).0.action_loading ≡ false
unfolding after_save
after_save-settled s call (resolved _) (resolved _) = refl
after_save-settled s call (resolved _) (rejected _) = refl
after_save-settled s call (rejected e) listed = refl

module _ (s : Page) (i : PackageInput CreditNumber) (saved : Call → Outcome (Unit {0}))
    (listed : Outcome (List CreditPackage)) where
  save_input-settled : (save_input s (input i) saved listed).0.action_loading ≡ false
  unfolding save_input
  save_input-settled = after_save-settled s (call_for s.panel i) (saved (call_for s.panel i)) listed

module _ (to_upper_case : Str → Str) (s : Page) (saved : Call → Outcome (Unit {0}))
    (listed : Outcome (List CreditPackage)) where
  -- An invalid form: no call is made, every package stays, and the errors are shown.
  pub submit-invalid :
      (validate_form s.form).1 ≡ false
      → submit_package to_upper_case s saved listed ≡ (
        record s {
          field_errors = (validate_form s.form).0;
          form_error = some "Fix the highlighted fields before saving.";
        },
        [],
      )
  unfolding submit_package
  submit-invalid h = rw h

  -- A valid form: exactly one save is tried, of the converted form.
  pub submit-valid :
      (validate_form s.form).1 ≡ true
      → (i : PackageInput CreditNumber) × (form_to_input to_upper_case s.form ≡ input i)
        × (submit_package to_upper_case s saved listed
            ≡ save_input
                (record s {
                  field_errors = (validate_form s.form).0;
                  action_loading = true;
                  form_error = none;
                  error = none;
                  notice = none;
                })
                (input i)
                saved
                listed)
  unfolding submit_package
  submit-valid h =
      let (i, e, _, _, _) = valid-form_to_input to_upper_case s.form h in (i, e, rw (h, e))

  -- The page is never left waiting for a save.
  pub submit-settled :
      s.action_loading ≡ false
      → (submit_package to_upper_case s saved listed).0.action_loading ≡ false
  submit-settled idle = elim (Bool-cases (validate_form s.form).1) [
    | inl h ↦ let (j, f, same) = submit-valid h in rw same (save_input-settled _ j saved listed)
    | inr h ↦ rw (submit-invalid h) idle
  ]

-- For a valid form, when the save and the list after it succeed: the fetched list is shown, the
-- panel is closed, the notice names what was done, and no error is shown.
submit-success :
    (to_upper_case : Str → Str) (s : Page) (listed : List CreditPackage)
    → (validate_form s.form).1 ≡ true
    → let t = (submit_package to_upper_case s (λ _. resolved tt) (resolved listed)).0 in
      (t.packages ≡ listed)
      × (t.panel ≡ none)
      × (t.notice ≡ some (saved_notice s.panel))
      × (banner_errors t ≡ [])
      × (form_errors t ≡ [])
unfolding save_input banner_errors form_errors
submit-success to_upper_case s listed h =
    let (j, f, same) = submit-valid to_upper_case s (λ _. resolved tt) (resolved listed) h in
    rw same (refl, refl, refl, refl, refl)

-- For a valid form in an open panel, when the save is refused: the list, the panel and the form
-- stay as they are, no notice is shown, and the panel shows the error.
submit-refused :
    (to_upper_case : Str → Str) (s : Page) (p : Panel) (e : Failure)
    (listed : Outcome (List CreditPackage))
    → (validate_form s.form).1 ≡ true
    → s.panel ≡ some p
    → let t = (submit_package to_upper_case s (λ _. rejected e) listed).0 in
      (t.packages ≡ s.packages)
      × (t.panel ≡ some p)
      × (t.form ≡ s.form)
      × (t.notice ≡ none)
      × (form_errors t ≡ readable_error e ∷ [])
unfolding save_input form_errors
submit-refused to_upper_case s p e listed h open_panel =
    let (j, f, same) = submit-valid to_upper_case s (λ _. rejected e) listed h in
    rw same (refl, open_panel, refl, refl, rw open_panel)

-- For a valid form, when the save succeeds and the list after it is refused: the old list stays,
-- the notice says that the package is saved, the error is stored as the form's, and no error is
-- shown, neither in the banner nor in a panel.
pub submit-list_error_hidden :
    (to_upper_case : Str → Str) (s : Page) (e : Failure)
    → (validate_form s.form).1 ≡ true
    → let t = (submit_package to_upper_case s (λ _. resolved tt) (rejected e)).0 in
      (t.packages ≡ s.packages)
      × (t.notice ≡ some (saved_notice s.panel))
      × (t.form_error ≡ some (readable_error e))
      × (banner_errors t ≡ [])
      × (form_errors t ≡ [])
unfolding save_input banner_errors form_errors
submit-list_error_hidden to_upper_case s e h =
    let (j, f, same) = submit-valid to_upper_case s (λ _. resolved tt) (rejected e) h in
    rw same (refl, refl, refl, refl, refl)

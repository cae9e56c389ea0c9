-- ===== src/UserDetail/Laws.antt =====
-- Top-ups and adjustments of the user page: signs, confirmations and idempotency keys.
use slai.Base.{
  ◌≡◌, ◌≢◌, refl, Bool, true, false, not, ◌&&◌, [], ◌∷◌, ◌++◌, codes, All, if_split, arith, ap,
  drop,
}
use slai.Text.{Str, trim, truthy}
use slai.Api.Errors.{Outcome, resolved, rejected}
use slai.UserDetail.{
  Number, plus, minus, not_a_number, abs, negate, is_negative, to_stored_credits, Adjustment,
  scale_adjustment, AdjustType, credit, debit, or_text, Page, Call, manual_top_up, adjustment,
  Result, delta_units, top_up_of, adjustment_of, submit_adjustment, run_action,
}

-- Units of the chosen kind: none below zero for a credit, and none above for a debit, and below
-- only if the admin confirmed it.
abbrev pub IsAsChosen : AdjustType → (confirmed : Bool) → Number → Type 0
IsAsChosen credit confirmed units = is_negative units ≡ false
IsAsChosen debit confirmed units =
    (is_negative (negate units) ≡ false) × (is_negative units ≡ true → confirmed ≡ true)

-- The units of an adjustment that is sent.
abbrev pub IsAllowed : AdjustType → (confirmed : Bool) → Call → Type 0
IsAllowed kind confirmed (adjustment a) = IsAsChosen kind confirmed a.delta_units
IsAllowed kind confirmed (manual_top_up input) = ⊥
IsAllowed kind confirmed _ = Unit

credited : (n : Number) → is_negative (to_stored_credits (abs n)) ≡ false
unfolding to_stored_credits
credited (plus n) = refl
credited (minus n) = refl
credited not_a_number = refl

debited :
    (n : Number) (confirmed : Bool)
    → (is_negative (negate (abs n)) && not confirmed) ≡ false
    → IsAsChosen debit confirmed (to_stored_credits (negate (abs n)))
unfolding to_stored_credits
debited (plus n) confirmed h = (refl, λ e. ground (arith, h, e))
debited (minus n) confirmed h = (refl, λ e. ground (arith, h, e))
debited not_a_number confirmed h = (refl, λ e. ground (arith, e))

chosen :
    (number : Str → Number) (kind : AdjustType) (units : Str) (confirmed : Bool)
    → (is_negative (delta_units number kind units) && not confirmed) ≡ false
    → IsAsChosen kind confirmed (to_stored_credits (delta_units number kind units))
unfolding delta_units
chosen number credit units confirmed h = credited (number units)
chosen number debit units confirmed h = debited (number units) confirmed h

run-IsAllowed :
    {A D : Type 0} (kind : AdjustType) (confirmed : Bool) (user_id : Str) (a : Adjustment)
    (notice : Str) (answer : Outcome A) (detail : Outcome D) (s : Page D)
    → IsAsChosen kind confirmed a.delta_units
    → All (IsAllowed kind confirmed) (run_action user_id (adjustment a) notice answer detail s).1
unfolding run_action
run-IsAllowed kind confirmed user_id a notice (resolved x) detail s h = (h, (tt, tt))
run-IsAllowed kind confirmed user_id a notice (rejected e) detail s h = (h, tt)

module _ {A D : Type 0} (user_id : Str) (number : Str → Number) (to_upper_case : Str → Str)
    (now : Str) where
  -- Whatever is typed as units, a credit adjustment is sent with units that are not below zero, a
  -- debit with units that are not above zero, and with units below zero only if the admin
  -- confirmed it.
  pub submit_adjustment-IsAllowed :
      (confirmed : Bool) (answer : Outcome A) (detail : Outcome D) (s : Page D)
      → All
          (IsAllowed s.adjust_type confirmed)
          (submit_adjustment user_id number to_upper_case now confirmed answer detail s).1
  unfolding submit_adjustment adjustment_of scale_adjustment
  submit_adjustment-IsAllowed confirmed answer detail s =
      if_split (λ (r : Result D). All (IsAllowed s.adjust_type confirmed) r.1)
        (is_negative (delta_units number s.adjust_type s.adjust_units) && not confirmed) (λ e. tt)
        (λ e.
          run-IsAllowed s.adjust_type confirmed user_id _ _ answer detail s
            (chosen number s.adjust_type s.adjust_units confirmed e))

prefix_injective : (p a b : Str) → (p ++ a) ≡ (p ++ b) → a ≡ b
prefix_injective [] a b h = h
prefix_injective (c ∷ p) a b h = prefix_injective p a b (ap (drop 1) h)

or_text-falls : (s a b : Str) → s ≡ [] → or_text s a ≡ or_text s b → a ≡ b
or_text-falls [] a b e h = h
or_text-falls (c ∷ s) a b e h = ground (arith, ap truthy e)

or_text-stays : (s a b : Str) → s ≢ [] → or_text s a ≡ or_text s b
or_text-stays [] a b n = elim (n refl) [ ]
or_text-stays (c ∷ s) a b n = refl

module _ {D : Type 0} (user_id : Str) (number : Str → Number) (to_upper_case : Str → Str)
    (now later : Str) (s : Page D) where
  abbrev key_at : Str → Str
  key_at time = (top_up_of user_id number to_upper_case time s).idempotency_key

  -- A top-up that is submitted again at another time is sent with another idempotency key, unless a
  -- provider reference that is not blank was typed, and then with the same one.
  pub top_up_of-key :
      now ≢ later
      → ((trim s.top_up_provider_ref ≡ []) → key_at now ≢ key_at later)
        × ((trim s.top_up_provider_ref ≢ []) → key_at now ≡ key_at later)
  unfolding top_up_of
  top_up_of-key apart = (
    λ e h. apart (
        prefix_injective (codes "ui-topup-" ++ user_id ++ codes "-") now later
          (or_text-falls _ _ _ e h)),
    λ n. or_text-stays _ _ _ n,
  )

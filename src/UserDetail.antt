-- ===== src/UserDetail.antt =====
-- The admin's page of one user, apps/web/src/app/admin/users/[id]/page.tsx. An action and the
-- answers to its calls are one event: `actionLoading` disables the others until it ends. D is the
-- type of details; `Number` of a text, upper case and the time in digits are arguments.
pub mod Laws
pub mod View
use slai.Base.{
  ℕ, zero, suc, Bool, true, false, not, ◌&&◌, ◌||◌, List, [], ◌∷◌, ◌++◌, Option, none, some, String,
  if◌then◌else◌, codes,
}
use slai.Text.{Str, trim, if_truthy}
use slai.Api.Errors.{Failure, Outcome, resolved, rejected, readable_error}
use slai.Api.User.{UserStatus, active, suspended}

-- A number of JavaScript in millionths, with its sign, or not a number.
pub data Number : Type 0 where
  plus minus : (millionths : ℕ) → Number
  not_a_number : Number

-- `Math.abs`
abbrev pub abs : Number → Number
abs (plus n) = plus n
abs (minus n) = plus n
abs not_a_number = not_a_number

abbrev pub negate : Number → Number
negate (plus n) = minus n
negate (minus n) = plus n
negate not_a_number = not_a_number

-- `value < 0`
abbrev pub is_negative : Number → Bool
is_negative (plus n) = false
is_negative (minus zero) = false
is_negative (minus (suc n)) = true
is_negative not_a_number = false

-- `toStoredCredits`: a millionth of a credit is one unit.
unfoldable pub to_stored_credits : Number → Number
to_stored_credits (plus n) = plus n
to_stored_credits (minus n) = minus n
to_stored_credits not_a_number = plus 0

-- `ManualTopUpInput`
pub record TopUp : Type 0 where
  pub user_id : Str
  pub package_id : Option Str
  pub amount_minor : Number
  pub currency : Str
  pub credit_units : Number
  pub note : Str
  pub idempotency_key : Str

-- `AdjustmentInput`
pub record Adjustment : Type 0 where
  pub user_id : Str
  pub delta_units : Number
  pub reason : Str
  pub idempotency_key : Str

unfoldable pub scale_top_up : TopUp → TopUp
unfolding to_stored_credits
scale_top_up input = record input { credit_units = to_stored_credits input.credit_units }

unfoldable pub scale_adjustment : Adjustment → Adjustment
unfolding to_stored_credits
scale_adjustment input = record input { delta_units = to_stored_credits input.delta_units }

pub data AdjustType : Type 0 where
  credit debit : AdjustType

pub data KeyAction : Type 0 where
  suspend resume revoke : KeyAction

pub record Page (D : Type 0) : Type 0 where
  pub detail : Option D
  pub loading : Bool
  pub action_loading : Bool
  pub error : Option String
  pub notice : Option Str
  pub top_up_credits : Str
  pub top_up_amount : Str
  pub top_up_currency : Str
  pub top_up_package_id : Str
  pub top_up_provider_ref : Str
  pub top_up_note : Str
  pub adjust_type : AdjustType
  pub adjust_units : Str
  pub adjust_reason : Str

-- The calls, the inputs of the last two as they are sent.
pub data Call : Type 0 where
  get_user : (user_id : Str) → Call
  update_status : (user_id : Str) → UserStatus → Call
  key_action : KeyAction → (user_id : Str) → Call
  manual_top_up : TopUp → Call
  adjustment : Adjustment → Call

-- `value || fallback`
abbrev pub or_text : Str → Str → Str
or_text [] fallback = fallback
or_text (c ∷ s) fallback = c ∷ s

abbrev pub action_name : KeyAction → Str
action_name suspend = codes "suspend"
action_name resume = codes "resume"
action_name revoke = codes "revoke"

abbrev pub status_name : UserStatus → Str
status_name active = codes "ACTIVE"
status_name suspended = codes "SUSPENDED"

abbrev is_resume : KeyAction → Bool
is_resume resume = true
is_resume _ = false

-- The page after an action, and the calls that it made.
abbrev pub Result : Type 0 → Type 0
Result D = Page D × List Call

-- `deltaUnits`, as `submitAdjustment` computes it.
unfoldable pub delta_units : (number : Str → Number) → AdjustType → Str → Number
delta_units number credit units = abs (number units)
delta_units number debit units = negate (abs (number units))

module _ {D : Type 0} where
  unfoldable pub start_load : (silent : Bool) → Page D → Page D
  start_load silent s = record s { loading = if silent then s.loading else true; error = none }

  unfoldable pub after_load : Outcome D → Page D → Page D
  after_load (resolved response) s = record s { detail = some response; loading = false }
  after_load (rejected e) s = record s { error = some (readable_error e); loading = false }

  -- What `runAction` does before and after its action.
  unfoldable pub start_action : Page D → Page D
  start_action s = record s { action_loading = true; error = none; notice = none }

  abbrev pub failed_action : Failure → Page D → Page D
  failed_action e s = record s { error = some (readable_error e); action_loading = false }

module _ {D : Type 0} (user_id : Str) where
  -- An action that loads the user silently after its call, and then shows a notice.
  unfoldable pub run_action {ℓ} :
      {A : Type ℓ} → Call → (notice : Str) → Outcome A → Outcome D → Page D → Result D
  unfolding start_load after_load start_action
  run_action call notice (resolved a) detail s = (
    record (after_load detail (start_load true (start_action s))) {
      notice = some notice;
      action_loading = false;
    },
    call ∷ get_user user_id ∷ [],
  )
  run_action call notice (rejected e) detail s = (failed_action e (start_action s), call ∷ [])

  abbrev pub after_status : UserStatus → Outcome D → Page D → Page D
  after_status status (resolved response) s = record s {
    detail = some response;
    notice = some (codes "User status updated to " ++ status_name status ++ codes ".");
    action_loading = false;
  }
  after_status status (rejected e) s = failed_action e s

  -- `confirmed` is what `window.confirm` returned.
  unfoldable pub update_user_status :
      UserStatus → (confirmed : Bool) → Outcome D → Page D → Result D
  unfolding start_action
  update_user_status status confirmed answer s =
      if confirmed
      then (after_status status answer (start_action s), update_status user_id status ∷ [])
      else (s, [])

  -- A key is resumed without a question.
  unfoldable pub act_on_key {ℓ} :
      {A : Type ℓ} → KeyAction → (confirmed : Bool) → Outcome A → Outcome D → Page D → Result D
  unfolding run_action
  act_on_key action confirmed answer detail s =
      if is_resume action || confirmed
      then run_action (key_action action user_id)
          (codes "API key " ++ action_name action ++ codes " succeeded.") answer detail s
      else (s, [])

  module _ (number : Str → Number) (to_upper_case : Str → Str) (now : Str) where
    unfoldable pub top_up_of : Page D → TopUp
    unfolding trim
    top_up_of s = record {
      user_id = user_id;
      package_id = if_truthy (trim s.top_up_package_id);
      amount_minor = number s.top_up_amount;
      currency = or_text (to_upper_case (trim s.top_up_currency)) (codes "USD");
      credit_units = number s.top_up_credits;
      note = s.top_up_note;
      idempotency_key =
          or_text (trim s.top_up_provider_ref) (codes "ui-topup-" ++ user_id ++ codes "-" ++ now);
    }

    unfoldable pub submit_top_up {ℓ} : {A : Type ℓ} → Outcome A → Outcome D → Page D → Result D
    unfolding run_action top_up_of scale_top_up
    submit_top_up answer detail s =
        run_action (manual_top_up (scale_top_up (top_up_of s))) (codes "Manual top-up created.")
          answer detail s

    unfoldable pub adjustment_of : Page D → Adjustment
    unfolding delta_units
    adjustment_of s = record {
      user_id = user_id;
      delta_units = delta_units number s.adjust_type s.adjust_units;
      reason = s.adjust_reason;
      idempotency_key = codes "ui-adjustment-" ++ user_id ++ codes "-" ++ now;
    }

    unfoldable pub submit_adjustment {ℓ} :
        {A : Type ℓ} → (confirmed : Bool) → Outcome A → Outcome D → Page D → Result D
    unfolding run_action adjustment_of scale_adjustment
    submit_adjustment confirmed answer detail s =
        let input = adjustment_of s in
        if is_negative input.delta_units && not confirmed
        then (s, [])
        else run_action (adjustment (scale_adjustment input)) (codes "Credit adjustment created.")
            answer detail s

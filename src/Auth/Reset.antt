-- ===== src/Auth/Reset.antt =====
-- The state and the handlers of `PasswordResetPage` (apps/web/src/app/password-reset/page.tsx).
pub mod Laws
use slai.Base.{Bool, true, false, List, [], ◌∷◌, ◌++◌, Option, none, some, String, if◌then◌else◌}
use slai.Text.{Str, trim}
use slai.Api.Errors.{Failure, Outcome, resolved, rejected, readable_error}
use slai.Auth.{SignupErrors, no_signup_errors, is_clear, validate_email, validate_reset, otp_input}
use slai.Auth.Signup.{Verification}

pub data Step : Type 0 where
  request confirm success : Step

pub record Reset : Type 0 where
  pub stage : Step
  pub email : Str
  pub otp : Str
  pub password : Str
  pub expires_at : Option String
  pub field_errors : SignupErrors
  pub loading : Bool
  pub error : Option String

pub data Call : Type 0 where
  call_request : (email : Str) → Call
  call_confirm : (email otp password : Str) → Call

unfoldable pub initial : Reset
initial = record {
  stage = request;
  email = [];
  otp = [];
  password = [];
  expires_at = none;
  field_errors = no_signup_errors;
  loading = false;
  error = none;
}

unfoldable pub after_request : Reset → Outcome Verification → Reset
after_request s (resolved v) = record s {
  email = v.email;
  expires_at = some v.expires_at;
  otp = [];
  password = [];
  stage = confirm;
  loading = false;
}
after_request s (rejected e) = record s { error = some (readable_error e); loading = false }

unfoldable pub request_reset : Reset → Outcome Verification → Reset × List Call
unfolding after_request
request_reset s answer =
    let validation = validate_email s.email in
    let started = record s { field_errors = validation; loading = true; error = none } in
    if is_clear validation
    then (after_request started answer, call_request (trim s.email) ∷ [])
    else (record s { field_errors = validation }, [])

unfoldable pub after_confirm : Reset → Outcome (Unit {0}) → Reset
after_confirm s (resolved _) = record s {
  stage = success;
  otp = [];
  password = [];
  loading = false;
}
after_confirm s (rejected e) = record s { error = some (readable_error e); loading = false }

unfoldable pub confirm_reset : Reset → Outcome (Unit {0}) → Reset × List Call
unfolding after_confirm
confirm_reset s answer =
    let validation = validate_reset s.otp s.password in
    let started = record s { field_errors = validation; loading = true; error = none } in
    if is_clear validation
    then (after_confirm started answer, call_confirm (trim s.email) (trim s.otp) s.password ∷ [])
    else (record s { field_errors = validation }, [])

unfoldable pub submit : Step → Reset → Outcome Verification → Outcome (Unit {0}) → Reset × List Call
unfolding request_reset confirm_reset
submit confirm s requested confirmed = confirm_reset s confirmed
submit request s requested confirmed = request_reset s requested
submit success s requested confirmed = (s, [])

-- The button "Change email".
unfoldable pub change_email : Reset → Reset
change_email s = record s {
  stage = request;
  otp = [];
  password = [];
  expires_at = none;
  error = none;
  field_errors = no_signup_errors;
}

pub data Event : Type 0 where
  typed_email typed_otp typed_password : (value : Str) → Event
  submitted : (requested : Outcome Verification) (confirmed : Outcome (Unit {0})) → Event
  resent : (requested : Outcome Verification) → Event
  changed_email : Event

-- The controls of each stage: the e-mail field, the code and the password with two buttons, none.
unfoldable pub step : Step → Reset → Event → Reset × List Call
unfolding submit request_reset change_email
step request s (typed_email value) =
    (record s { email = value; field_errors = record (s.field_errors) { email = none } }, [])
step confirm s (typed_otp value) =
    (record s { otp = otp_input value; field_errors = record (s.field_errors) { otp = none } }, [])
step confirm s (typed_password value) =
    (record s { password = value; field_errors = record (s.field_errors) { password = none } }, [])
step stage s (submitted requested confirmed) = submit stage s requested confirmed
step confirm s (resent requested) = request_reset s requested
step confirm s changed_email = (change_email s, [])
step _ s _ = (s, [])

unfoldable pub run : Reset → List Event → Reset × List Call
unfolding step
run s [] = (s, [])
run s (e ∷ es) =
    let (t, calls) = step s.stage s e in let (u, later) = run t es in (u, calls ++ later)

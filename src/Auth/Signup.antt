-- ===== src/Auth/Signup.antt =====
-- The state and the handlers of `SignupPage` (apps/web/src/app/signup/page.tsx). A handler runs up
-- to its call, and the answer is an event of its own: the fields and buttons of the page are
-- disabled while it is loading, but Google's button is not, so that its calls may overlap with the
-- others. A call that waits keeps the state in which its handler was started.
pub mod Laws
use slai.Base.{
  ℕ, zero, suc, Bool, true, false, not, ◌&&◌, ◌||◌, List, [], ◌∷◌, ◌++◌, Option, none, some, String,
  if◌then◌else◌,
}
use slai.Text.{Str, trim}
use slai.Api.Errors.{Failure, Outcome, resolved, rejected, readable_error}
use slai.Auth.{SignupErrors, no_signup_errors, is_clear, validate_signup, validate_otp, otp_input}

pub record Signup : Type 0 where
  pub email : Str
  pub otp : Str
  pub password : Str
  pub verification_sent : Bool
  pub expires_at : Option String
  pub field_errors : SignupErrors
  pub loading : Bool
  pub error : Option String

pub record Verification : Type 0 where
  pub email : Str
  pub expires_at : String

pub data Call : Type 0 where
  signup : (email password : Str) → Call
  verify : (email otp : Str) → Call
  google : (credential : Str) → Call

pub data Effect : Type 0 where
  send : Call → Effect
  push : (path : String) → Effect
  refresh : Effect

unfoldable pub initial : Signup
initial = record {
  email = [];
  otp = [];
  password = [];
  verification_sent = false;
  expires_at = none;
  field_errors = no_signup_errors;
  loading = false;
  error = none;
}

unfoldable pub after_signup : Signup → Outcome Verification → Signup
after_signup s (resolved v) = record s {
  email = v.email;
  expires_at = some v.expires_at;
  verification_sent = true;
  otp = [];
  loading = false;
}
after_signup s (rejected e) = record s { error = some (readable_error e); loading = false }

-- What a handler does up to its call, if it makes one.
abbrev pub Started : Type 0
Started = Signup × Option Call

abbrev pub waiting : SignupErrors → Signup → Signup
waiting validation s = record s { field_errors = validation; loading = true; error = none }

unfoldable pub request_signup_otp : Signup → Started
request_signup_otp s =
    let validation = validate_signup s.email s.password in
    if is_clear validation
    then (waiting validation s, some (signup (trim s.email) s.password))
    else (record s { field_errors = validation }, none)

abbrev pub otp_errors : Str → SignupErrors
otp_errors otp = record no_signup_errors { otp = validate_otp "Verification code is required." otp }

unfoldable pub verify_signup : Signup → Started
verify_signup s =
    if is_clear (otp_errors s.otp)
    then (waiting (otp_errors s.otp) s, some (verify (trim s.email) (trim s.otp)))
    else (record s { field_errors = otp_errors s.otp }, none)

unfoldable pub continue_with_google : Str → Signup → Started
continue_with_google credential s =
    (record s { loading = true; error = none }, some (google credential))

unfoldable pub submit : Signup → Started
unfolding request_signup_otp verify_signup
submit s = if s.verification_sent then verify_signup s else request_signup_otp s

-- Both the verification and Google end on the dashboard.
unfoldable pub after_entry : Signup → Outcome (Unit {0}) → Signup × List Effect
after_entry s (resolved _) = (record s { loading = false }, push "/dashboard" ∷ refresh ∷ [])
after_entry s (rejected e) = (record s { error = some (readable_error e); loading = false }, [])

unfoldable pub change_email : Signup → Signup
change_email s = record s {
  verification_sent = false;
  otp = [];
  expires_at = none;
  error = none;
  field_errors = no_signup_errors;
}

-- `setFieldErrors((current) => ({ ...current, key: undefined }))`
unfoldable pub type_email : Str → Signup → Signup
type_email value s = record s {
  email = value;
  field_errors = record (s.field_errors) { email = none };
}

unfoldable pub type_password : Str → Signup → Signup
type_password value s = record s {
  password = value;
  field_errors = record (s.field_errors) { password = none };
}

unfoldable pub type_otp : Str → Signup → Signup
type_otp value s = record s {
  otp = otp_input value;
  field_errors = record (s.field_errors) { otp = none };
}

-- A call without an answer, with the state in which its handler was started.
pub record Pending : Type 0 where
  pub call : Call
  pub origin : Signup

-- The page with its calls that wait, the last one first.
pub record Live : Type 0 where
  pub page : Signup
  pub pending : List Pending

unfoldable pub opened : Live
unfolding initial
opened = record { page = initial; pending = [] }

unfoldable pub start : Live → Started → Live × List Effect
start l (t, none) = (record l { page = t }, [])
start l (t, some c) =
    (record { page = t; pending = record { call = c; origin = l.page } ∷ l.pending }, send c ∷ [])

-- The n-th call that waits, and the others.
abbrev pub put_back : Pending → Option (Pending × List Pending) → Option (Pending × List Pending)
put_back q none = none
put_back q (some (p, rest)) = some (p, q ∷ rest)

unfoldable pub pick : ℕ → List Pending → Option (Pending × List Pending)
pick n [] = none
pick zero (p ∷ ps) = some (p, ps)
pick (suc n) (p ∷ ps) = put_back p (pick n ps)

-- What follows a call, with the answer of its kind.
unfoldable pub after_call :
    Call
    → (signed_up : Outcome Verification) (entered : Outcome (Unit {0})) → Signup
    → Signup × List Effect
unfolding after_signup after_entry
after_call (signup email password) signed_up entered s = (after_signup s signed_up, [])
after_call (verify email otp) signed_up entered s = after_entry s entered
after_call (google credential) signed_up entered s = after_entry s entered

abbrev pub with_pending : List Pending → Signup × List Effect → Live × List Effect
with_pending ps (t, effects) = (record { page = t; pending = ps }, effects)

unfoldable pub answer :
    Option (Pending × List Pending)
    → (signed_up : Outcome Verification) (entered : Outcome (Unit {0})) → Live
    → Live × List Effect
unfolding after_call
answer none signed_up entered l = (l, [])
answer (some (p, rest)) signed_up entered l =
    with_pending rest (after_call p.call signed_up entered l.page)

pub data Event : Type 0 where
  typed_email typed_password typed_otp : (value : Str) → Event
  submitted resent changed_email : Event
  google_credential : (credential : Str) → Event
  google_failed : (message : String) → Event
  answered : (n : ℕ) (signed_up : Outcome Verification) (entered : Outcome (Unit {0})) → Event

abbrev pub edit : (shown : Bool) → Signup → Live → Live × List Effect
edit shown t l = if shown && not l.page.loading then (record l { page = t }, []) else (l, [])

-- What the page does on an event; a field or a button that it does not show, or that is disabled,
-- has none. Object keys that are set to `undefined` are counted by no check, since each check
-- builds its own object.
unfoldable pub step : Live → Event → Live × List Effect
unfolding submit request_signup_otp continue_with_google change_email type_email type_password
    type_otp start answer pick
step l (typed_email value) = edit (not l.page.verification_sent) (type_email value l.page) l
step l (typed_password value) = edit (not l.page.verification_sent) (type_password value l.page) l
step l (typed_otp value) = edit l.page.verification_sent (type_otp value l.page) l
step l submitted = if l.page.loading then (l, []) else start l (submit l.page)
step l resent =
    if l.page.verification_sent && not l.page.loading
    then start l (request_signup_otp l.page)
    else (l, [])
step l changed_email = edit l.page.verification_sent (change_email l.page) l
step l (google_credential credential) = start l (continue_with_google credential l.page)
step l (google_failed message) = (record l { page = record (l.page) { error = some message } }, [])
step l (answered n signed_up entered) = answer (pick n l.pending) signed_up entered l

unfoldable pub run : Live → List Event → Live × List Effect
run l [] = (l, [])
run l (e ∷ es) = let (t, effects) = step l e in let (u, later) = run t es in (u, effects ++ later)

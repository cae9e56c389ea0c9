-- ===== src/Auth/Reset/Laws.antt =====
-- What holds of the password-reset page after any events.
use slai.Base.{
  ◌≤◌, ◌≡◌, ◌≢◌, refl, true, false, List, [], ◌∷◌, none, length, all, arith, Bool-cases, All,
  All-append, if_split, inl, inr,
}
use slai.Text.{Str, trim, is_digit}
use slai.Api.Errors.{Outcome, resolved, rejected}
use slai.Auth.{
  is_clear, validate_email, validate_reset, validate_otp, email_error, new_password_error,
  looks_like_email,
}
use slai.Auth.Laws.{IsEmail, looks_like_email_iff, validate_otp_iff, otp_input-all, otp_input-le}
use slai.Auth.Signup.{Verification}
use slai.Auth.Reset.{
  Step, request, confirm, success, Reset, Call, call_request, call_confirm, initial, request_reset,
  confirm_reset, submit, Event, typed_email, typed_otp, typed_password, submitted, resent,
  changed_email, step, run,
}

-- A code and a new password are kept only while they are being confirmed, and a code on the screen
-- has its time of expiry.
pub record Inv (s : Reset) : Type 0 where
  pub otp_digits : all is_digit s.otp ≡ true
  pub otp_short : length s.otp ≤ 6
  pub kept : (s.stage ≢ confirm) → (s.otp ≡ []) × (s.password ≡ [])
  pub expires : s.stage ≡ confirm → s.expires_at ≢ none
  pub idle : s.loading ≡ false

-- A request goes to an e-mail address; a confirmation has six digits and a password of at least
-- eight characters.
abbrev pub IsAllowed : Call → Type 0
IsAllowed (call_request email) = IsEmail email
IsAllowed (call_confirm email otp password) =
    (length otp ≡ 6) × (all is_digit otp ≡ true) × (8 ≤ length password)

abbrev Good : Reset × List Call → Type 0
Good r = Inv r.0 × All IsAllowed r.1

clear-IsEmail : (email : Str) → is_clear (validate_email email) ≡ true → IsEmail (trim email)
unfolding is_clear validate_email email_error
clear-IsEmail email h = elim (Bool-cases (looks_like_email email)) [
  | inl e ↦ (looks_like_email_iff email).0 e
  | inr e ↦ ground arith
]

clear-otp :
    (otp password : Str)
    → is_clear (validate_reset otp password) ≡ true
    → validate_otp "Reset code is required." otp ≡ none
unfolding is_clear validate_reset
clear-otp otp password h = ground arith

clear-password :
    (otp password : Str) → is_clear (validate_reset otp password) ≡ true → 8 ≤ length password
unfolding is_clear validate_reset new_password_error
clear-password otp password h = ground arith

initial-Inv : Inv initial
unfolding initial
initial-Inv = ground arith

request-Good : (s : Reset) (answer : Outcome Verification) → Inv s → Good (request_reset s answer)
unfolding request_reset
request-Good s (resolved v) h =
    if_split Good (is_clear (validate_email s.email))
      (λ e. (ground arith, (clear-IsEmail s.email e, tt))) (λ e. (ground arith, tt))
request-Good s (rejected x) h =
    if_split Good (is_clear (validate_email s.email))
      (λ e. (ground arith, (clear-IsEmail s.email e, tt))) (λ e. (ground arith, tt))

IsAllowed-confirm :
    (s : Reset)
    → is_clear (validate_reset s.otp s.password) ≡ true
    → IsAllowed (call_confirm (trim s.email) (trim s.otp) s.password)
IsAllowed-confirm s e =
    let (l, d) =
      (validate_otp_iff "Reset code is required." s.otp).0 (clear-otp s.otp s.password e) in
    (l, d, clear-password s.otp s.password e)

confirm-Good : (s : Reset) (answer : Outcome (Unit {0})) → Inv s → Good (confirm_reset s answer)
unfolding confirm_reset
confirm-Good s (resolved u) h =
    if_split Good (is_clear (validate_reset s.otp s.password))
      (λ e. (ground arith, (IsAllowed-confirm s e, tt))) (λ e. (ground arith, tt))
confirm-Good s (rejected x) h =
    if_split Good (is_clear (validate_reset s.otp s.password))
      (λ e. (ground arith, (IsAllowed-confirm s e, tt))) (λ e. (ground arith, tt))

otp-Good :
    (value : Str) (s : Reset) → Inv s → s.stage ≡ confirm → Good (step confirm s (typed_otp value))
unfolding step
otp-Good value s h e = (
  record {
    otp_digits = otp_input-all value;
    otp_short = otp_input-le value;
    kept = λ k. absurd (k e);
    expires = h.expires;
    idle = h.idle;
  },
  tt,
)

password-Good :
    (value : Str) (s : Reset)
    → Inv s
    → s.stage ≡ confirm
    → Good (step confirm s (typed_password value))
unfolding step
password-Good value s h e = (
  record {
    otp_digits = h.otp_digits;
    otp_short = h.otp_short;
    kept = λ k. absurd (k e);
    expires = h.expires;
    idle = h.idle;
  },
  tt,
)

pub step-Good : (p : Step) (s : Reset) (e : Event) → s.stage ≡ p → Inv s → Good (step p s e)
unfolding step submit
step-Good request s (typed_email value) k h = (ground arith, tt)
step-Good confirm s (typed_otp value) k h = otp-Good value s h k
step-Good confirm s (typed_password value) k h = password-Good value s h k
step-Good confirm s (submitted requested confirmed) k h = confirm-Good s confirmed h
step-Good request s (submitted requested confirmed) k h = request-Good s requested h
step-Good success s (submitted requested confirmed) k h = (h, tt)
step-Good confirm s (resent requested) k h = request-Good s requested h
step-Good confirm s changed_email k h = (ground arith, tt)
step-Good confirm s (typed_email value) k h = (h, tt)
step-Good request s (typed_otp value) k h = (h, tt)
step-Good request s (typed_password value) k h = (h, tt)
step-Good request s (resent requested) k h = (h, tt)
step-Good request s changed_email k h = (h, tt)
step-Good success s (typed_email value) k h = (h, tt)
step-Good success s (typed_otp value) k h = (h, tt)
step-Good success s (typed_password value) k h = (h, tt)
step-Good success s (resent requested) k h = (h, tt)
step-Good success s changed_email k h = (h, tt)

run-Good : (es : List Event) (s : Reset) → Inv s → Good (run s es)
unfolding run
run-Good [] s h = (h, tt)
run-Good (e ∷ es) s h =
    let (i, now) = step-Good s.stage s e refl h in
    let (j, later) = run-Good es (step s.stage s e).0 i in
    (j, All-append IsAllowed (step s.stage s e).1 (run (step s.stage s e).0 es).1 now later)

-- After any events since the page was opened, the code is at most six digits, no code and no
-- password are left unless they are being confirmed, a page that asks for a code has its time of
-- expiry, and no call is pending; and each call that was made is a request for an e-mail address,
-- or a confirmation with six digits and a password of at least eight characters.
pub run-initial : (es : List Event) → Inv (run initial es).0 × All IsAllowed (run initial es).1
run-initial es = run-Good es initial initial-Inv

-- ===== src/Auth.antt =====
-- Sign-in, sign-up and password forms: apps/web/src/app/login/page.tsx, signup/page.tsx,
-- password-reset/page.tsx and dashboard/settings/page.tsx. This file has the checks on their
-- fields; the pages are child modules.
pub mod Laws
pub mod Signup
pub mod Reset
pub mod Login
pub mod AdminLogin
pub mod Google
use slai.Base.{
  ℕ, ◌==◌, ltb, Bool, true, false, not, ◌&&◌, ◌||◌, List, [], ◌∷◌, Option, none, some, String,
  if◌then◌else◌, length, take,
}
use slai.Text.{Str, trim, truthy, is_space, is_digit, equals}
use slai.Text.Regex.{Regex, unit, seq, plus, times, test}

-- `[^\s@]`
unfoldable pub is_word : ℕ → Bool
unfolding is_space
is_word c = not (is_space c) && not (c == b'@')

abbrev pub word : Regex
word = plus (unit is_word)

-- `/^[^\s@]+@[^\s@]+\.[^\s@]+$/`
abbrev pub email_regex : Regex
email_regex = seq word (seq (unit (λ c. c == b'@')) (seq word (seq (unit (λ c. c == b'.')) word)))

unfoldable pub looks_like_email : Str → Bool
unfolding is_word trim test
looks_like_email value = test email_regex (trim value)

-- `/^\d{6}$/`
abbrev pub otp_regex : Regex
otp_regex = times 6 (unit is_digit)

-- `errors.key` for each key that the form can set.
abbrev pub FieldError : Type 0
FieldError = Option String

abbrev pub is_absent : FieldError → Bool
is_absent none = true
is_absent (some _) = false

unfoldable pub email_error : Str → FieldError
email_error email =
    if not (truthy (trim email))
    then some "Email is required."
    else if not (looks_like_email email)
    then some "Enter a valid email address."
    else none

-- `validateOTP`; `required` is the message of the page.
unfoldable pub validate_otp : (required : String) → Str → FieldError
validate_otp required otp =
    if not (truthy (trim otp))
    then some required
    else if not (test otp_regex (trim otp))
    then some "Enter the 6-digit code."
    else none

-- The check of a new password; `required` is the message of the page.
unfoldable pub new_password_error : (required : String) → Str → FieldError
new_password_error required password =
    if not (truthy password)
    then some required
    else if ltb (length password) 8
    then some "Password must be at least 8 characters."
    else none

pub record SignupErrors : Type 0 where
  pub email : FieldError
  pub otp : FieldError
  pub password : FieldError

abbrev pub no_signup_errors : SignupErrors
no_signup_errors = record { email = none; otp = none; password = none }

-- `Object.keys(errors).length === 0`
unfoldable pub is_clear : SignupErrors → Bool
is_clear e = is_absent e.email && is_absent e.otp && is_absent e.password

unfoldable pub validate_signup : Str → Str → SignupErrors
unfolding email_error new_password_error
validate_signup email password = record {
  email = email_error email;
  otp = none;
  password = new_password_error "Password is required." password;
}

unfoldable pub validate_login : Str → Str → SignupErrors
unfolding email_error
validate_login email password = record {
  email = email_error email;
  otp = none;
  password = if not (truthy password) then some "Password is required." else none;
}

unfoldable pub validate_email : Str → SignupErrors
unfolding email_error
validate_email email = record { email = email_error email; otp = none; password = none }

unfoldable pub validate_reset : Str → Str → SignupErrors
unfolding validate_otp new_password_error
validate_reset otp password = record {
  email = none;
  otp = validate_otp "Reset code is required." otp;
  password = new_password_error "New password is required." password;
}

pub record PasswordErrors : Type 0 where
  pub current_password : FieldError
  pub new_password : FieldError
  pub confirm_password : FieldError

unfoldable pub validate_password_change : Str → Str → Str → PasswordErrors
validate_password_change current_password new_password confirm_password = record {
  current_password =
      if not (truthy current_password) then some "Current password is required." else none;
  new_password =
      if not (truthy new_password)
      then some "New password is required."
      else if ltb (length new_password) 8
      then some "Password must be at least 8 characters."
      else if equals new_password current_password
      then some "Choose a different password."
      else none;
  confirm_password =
      if not (truthy confirm_password)
      then some "Confirm your new password."
      else if not (equals new_password confirm_password)
      then some "Passwords do not match."
      else none;
}

unfoldable pub is_accepted : PasswordErrors → Bool
is_accepted e =
    is_absent e.current_password && is_absent e.new_password && is_absent e.confirm_password

-- `value.replace(/\D/g, "")`
unfoldable pub digits_only : Str → Str
digits_only [] = []
digits_only (c ∷ s) = let rest = digits_only s in if is_digit c then c ∷ rest else rest

-- What the code field keeps of a typed value.
unfoldable pub otp_input : Str → Str
unfolding digits_only
otp_input value = take 6 (digits_only value)

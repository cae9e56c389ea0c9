-- ===== src/Settings.antt =====
-- The settings page, apps/web/src/app/dashboard/settings/page.tsx: the password form and the
-- session. Its checks of the passwords are in Auth.
pub mod Laws
use slai.Base.{Bool, true, false, ◌&&◌, List, [], ◌∷◌, Option, none, some, String, if◌then◌else◌}
use slai.Text.{Str}
use slai.Api.Errors.{Failure, Outcome, resolved, rejected, readable_error}
use slai.Api.User.{User, AuthProvider, password, google}
use slai.Auth.{PasswordErrors, validate_password_change, is_accepted}

-- Calls of the API, and of the router.
pub data Effect : Type 0 where
  change_password : (current new : Str) → Effect
  logout_session get_me : Effect
  push_login refresh : Effect

-- `PasswordSecurityCard`
pub record Card : Type 0 where
  pub current_password : Str
  pub new_password : Str
  pub confirm_password : Str
  pub field_errors : PasswordErrors
  pub saving : Bool
  pub error : Option String

abbrev pub password_enabled : User → Bool
password_enabled user = elim (user.auth_provider) [ password ↦ true | google ↦ false ]

-- Typing in a field takes its error away.
unfoldable pub type_current : Str → Card → Card
type_current value s = record s {
  current_password = value;
  field_errors = record (s.field_errors) { current_password = none };
}

unfoldable pub type_new : Str → Card → Card
type_new value s = record s {
  new_password = value;
  field_errors = record (s.field_errors) { new_password = none };
}

unfoldable pub type_confirm : Str → Card → Card
type_confirm value s = record s {
  confirm_password = value;
  field_errors = record (s.field_errors) { confirm_password = none };
}

-- The end of `submit`; `onPasswordChanged` goes to the sign-in page.
unfoldable pub after_change {ℓ} : {A : Type ℓ} → Outcome A → Card → Card × List Effect
after_change (resolved a) s = (record s { saving = false }, push_login ∷ refresh ∷ [])
after_change (rejected e) s = (record s { error = some (readable_error e); saving = false }, [])

-- `submit`, with the answer to its call if it makes one.
unfoldable pub submit {ℓ} : {A : Type ℓ} → Outcome A → Card → Card × List Effect
unfolding validate_password_change after_change is_accepted
submit answer s =
    let validation =
      validate_password_change s.current_password s.new_password s.confirm_password in
    let checked = record s { field_errors = validation } in
    let (after, effects) = after_change answer (record checked { saving = true; error = none }) in
    if is_accepted validation
    then (after, change_password s.current_password s.new_password ∷ effects)
    else (checked, [])

pub record Page : Type 0 where
  pub user : Option User
  pub loading : Bool
  pub logging_out : Bool
  pub error : Option String

unfoldable pub initial : Page
initial = record { user = none; loading = true; logging_out = false; error = none }

unfoldable pub load : Page → Page × List Effect
load s = (record s { loading = true; error = none }, get_me ∷ [])

unfoldable pub loaded : Outcome User → Page → Page
loaded (resolved user) s = record s { user = some user; loading = false }
loaded (rejected e) s = record s { error = some (readable_error e); loading = false }

unfoldable pub start_logout : Page → Page × List Effect
start_logout s = (record s { logging_out = true }, logout_session ∷ [])

-- A failed logout leaves `logout` with its error, which nothing catches.
unfoldable pub after_logout {ℓ} : {A : Type ℓ} → Outcome A → Page → Page × List Effect
after_logout (resolved a) s = (s, push_login ∷ refresh ∷ [])
after_logout (rejected e) s = (s, [])

pub data Event (A : Type 0) : Type 0 where
  opened retried logout_clicked : Event A
  me_answered : Outcome User → Event A
  logout_answered : Outcome A → Event A

module _ (A : Type 0) where
  -- The button of a logout that has begun is disabled.
  unfoldable pub step : Page → Event A → Page × List Effect
  unfolding load loaded start_logout after_logout
  step s opened = load s
  step s retried = load s
  step s logout_clicked = if s.logging_out then (s, []) else start_logout s
  step s (me_answered answer) = (loaded answer s, [])
  step s (logout_answered answer) = after_logout answer s

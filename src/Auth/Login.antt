-- ===== src/Auth/Login.antt =====
-- The state and the handlers of `LoginPage` (apps/web/src/app/login/page.tsx): where a signed-in
-- user is sent, the form and Google's button. A handler runs up to its call, and the answer is an
-- event of its own.
pub mod Laws
use slai.Base.{
  ℕ, zero, suc, Bool, true, false, List, [], ◌∷◌, ◌++◌, Option, none, some, String, if◌then◌else◌,
  codes,
}
use slai.Text.{Str, trim, starts_with}
use slai.Api.Errors.{Failure, Outcome, resolved, rejected, readable_error}
use slai.Auth.{SignupErrors, no_signup_errors, is_clear, validate_login}

pub record Login : Type 0 where
  pub next_path : Str
  pub email : Str
  pub password : Str
  pub field_errors : SignupErrors
  pub loading : Bool
  pub error : Option String

pub data Effect : Type 0 where
  call_login : (email password : Str) → Effect
  call_google : (credential : Str) → Effect
  push : (path : Str) → Effect
  refresh : Effect

abbrev pub dashboard : Str
dashboard = codes "/dashboard"

unfoldable pub initial : Login
initial = record {
  next_path = dashboard;
  email = [];
  password = [];
  field_errors = no_signup_errors;
  loading = false;
  error = none;
}

-- The effect of the first render; `next` is the query's parameter.
unfoldable pub read_next : Option Str → Login → Login
read_next none s = s
read_next (some next) s = if starts_with dashboard next then record s { next_path = next } else s

-- Both ways of signing in end alike; `next` is the path of the render in which the handler started.
unfoldable pub after_login : (next : Str) → Login → Outcome (Unit {0}) → Login × List Effect
after_login next s (resolved _) = (record s { loading = false }, push next ∷ refresh ∷ [])
after_login next s (rejected e) =
    (record s { error = some (readable_error e); loading = false }, [])

-- What a handler does up to its call, if it makes one.
unfoldable pub submit : Login → Login × List Effect
submit s =
    let validation = validate_login s.email s.password in
    if is_clear validation
    then (
      record s { field_errors = validation; loading = true; error = none },
      call_login (trim s.email) s.password ∷ [],
    )
    else (record s { field_errors = validation }, [])

unfoldable pub continue_with_google : Str → Login → Login × List Effect
continue_with_google credential s =
    (record s { loading = true; error = none }, call_google credential ∷ [])

-- The page, with the next path of each call that waits, the last one first.
pub record Live : Type 0 where
  pub page : Login
  pub pending : List Str

abbrev pub starts : Live → Login × List Effect → Live × List Effect
starts l (t, []) = (record l { page = t }, [])
starts l (t, e ∷ es) = (record { page = t; pending = l.page.next_path ∷ l.pending }, e ∷ es)

-- The n-th call that waits, and the others.
abbrev pub put_back : Str → Option (Str × List Str) → Option (Str × List Str)
put_back q none = none
put_back q (some (next, rest)) = some (next, q ∷ rest)

unfoldable pub pick : ℕ → List Str → Option (Str × List Str)
pick n [] = none
pick zero (next ∷ ps) = some (next, ps)
pick (suc n) (next ∷ ps) = put_back next (pick n ps)

unfoldable pub answer : Option (Str × List Str) → Outcome (Unit {0}) → Live → Live × List Effect
unfolding after_login
answer none outcome l = (l, [])
answer (some (next, rest)) outcome l =
    let (t, effects) = after_login next l.page outcome in
    (record { page = t; pending = rest }, effects)

pub data Event : Type 0 where
  typed_email typed_password : (value : Str) → Event
  opened : (next : Option Str) → Event
  submitted : Event
  google_credential : (credential : Str) → Event
  google_failed : (message : String) → Event
  answered : (n : ℕ) → Outcome (Unit {0}) → Event

abbrev pub only_page : Login → Live → Live
only_page t l = record l { page = t }

-- The fields and the button are disabled while the page is loading; Google's button is not.
unfoldable pub step : Live → Event → Live × List Effect
unfolding read_next submit continue_with_google answer pick
step l (typed_email value) = if l.page.loading then (l, []) else (
  only_page
      (record (l.page) {
        email = value;
        field_errors = record (l.page.field_errors) { email = none };
      })
      l,
  [],
)
step l (typed_password value) = if l.page.loading then (l, []) else (
  only_page
      (record (l.page) {
        password = value;
        field_errors = record (l.page.field_errors) { password = none };
      })
      l,
  [],
)
step l (opened next) = (only_page (read_next next l.page) l, [])
step l submitted = if l.page.loading then (l, []) else starts l (submit l.page)
step l (google_credential credential) = starts l (continue_with_google credential l.page)
step l (google_failed message) = (only_page (record (l.page) { error = some message }) l, [])
step l (answered n outcome) = answer (pick n l.pending) outcome l

unfoldable pub run : Live → List Event → Live × List Effect
run l [] = (l, [])
run l (e ∷ es) = let (t, effects) = step l e in let (u, later) = run t es in (u, effects ++ later)

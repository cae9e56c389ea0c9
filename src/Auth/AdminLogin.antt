-- ===== src/Auth/AdminLogin.antt =====
-- The state and the handlers of `AdminLoginPage` (apps/web/src/app/admin/login/page.tsx). The page
-- asks for the session when it opens, and an answer that comes after it has closed is dropped. What
-- is typed while `submit` awaits its calls is left out: `submit` reads the fields before the first.
pub mod Laws
use slai.Base.{
  Bool, true, false, not, ◌&&◌, List, [], ◌∷◌, ◌++◌, Option, none, some, String, if◌then◌else◌,
  codes,
}
use slai.Text.{Str, starts_with}
use slai.Api.Errors.{Failure, Outcome, resolved, rejected, readable_error, is_unauthorized}
use slai.Api.User.{User, is_admin}

pub record AdminLogin : Type 0 where
  pub next_path : Str
  pub email : Str
  pub password : Str
  pub checking_session : Bool
  pub loading : Bool
  pub error : Option String

pub data Effect : Type 0 where
  call_login : (email password : Str) → Effect
  call_me : Effect
  call_logout : Effect
  push : (path : Str) → Effect
  replace : (path : Str) → Effect
  refresh : Effect

abbrev pub admin_home : Str
admin_home = codes "/admin"

abbrev pub no_access : String
no_access = "This account does not have admin access."

unfoldable pub initial : AdminLogin
initial = record {
  next_path = admin_home;
  email = [];
  password = [];
  checking_session = true;
  loading = false;
  error = none;
}

-- `next?.startsWith("/admin") ? next : "/admin"`
unfoldable pub target : Option Str → Str
target none = admin_home
target (some next) = if starts_with admin_home next then next else admin_home

unfoldable pub read_next : Option Str → AdminLogin → AdminLogin
read_next none s = s
read_next (some next) s = if starts_with admin_home next then record s { next_path = next } else s

-- The answer to the session request of a page that is open.
unfoldable pub after_session :
    (next : Option Str) → AdminLogin → Outcome User → AdminLogin × List Effect
unfolding target
after_session next s (resolved u) =
    if is_admin (some u)
    then (record s { checking_session = false }, replace (target next) ∷ [])
    else (record s { error = some no_access; checking_session = false }, [])
after_session next s (rejected e) =
    if is_unauthorized e
    then (record s { checking_session = false }, [])
    else (record s { error = some (readable_error e); checking_session = false }, [])

-- The first render's effect, with the session's answer unless the page is closed before it.
unfoldable pub open_page :
    (next : Option Str) (cancelled : Bool) → Outcome User → AdminLogin × List Effect
unfolding read_next after_session initial
open_page next cancelled answer =
    let s = read_next next initial in
    let later = if cancelled then (s, []) else after_session next s answer in
    (later.0, call_me ∷ later.1)

abbrev fail : AdminLogin → Failure → AdminLogin
fail s e = record s { error = some (readable_error e); loading = false }

unfoldable pub after_logout : AdminLogin → Outcome (Unit {0}) → AdminLogin
after_logout s (resolved _) = record s { error = some no_access; loading = false }
after_logout s (rejected e) = fail s e

unfoldable pub after_me :
    AdminLogin → (me : Outcome User) (logged_out : Outcome (Unit {0})) → AdminLogin × List Effect
unfolding after_logout
after_me s (resolved u) logged_out =
    if not (is_admin (some u))
    then (after_logout s logged_out, call_logout ∷ [])
    else (record s { loading = false }, push s.next_path ∷ refresh ∷ [])
after_me s (rejected e) logged_out = (fail s e, [])

unfoldable pub after_login :
    AdminLogin
    → (login : Outcome (Unit {0})) (me : Outcome User) (logged_out : Outcome (Unit {0}))
    → AdminLogin × List Effect
unfolding after_me
after_login s (resolved _) me logged_out = let r = after_me s me logged_out in (r.0, call_me ∷ r.1)
after_login s (rejected e) me logged_out = (fail s e, [])

unfoldable pub submit :
    AdminLogin
    → (login : Outcome (Unit {0})) (me : Outcome User) (logged_out : Outcome (Unit {0}))
    → AdminLogin × List Effect
unfolding after_login
submit s login me logged_out =
    let r = after_login (record s { loading = true; error = none }) login me logged_out in
    (r.0, call_login s.email s.password ∷ r.1)

-- ===== src/Shell.antt =====
-- The customer's shell, apps/web/src/components/DashboardShell.tsx, and the sign-out of
-- AppShell.tsx. A session request has the number of its effect, and its answer is dropped when a
-- later effect or the end of the component has cancelled it.
pub mod Laws
use slai.Base.{
  ℕ, ◌+◌, ◌==◌, Bool, true, false, ◌&&◌, List, [], ◌∷◌, ◌++◌, Option, none, some, String,
  if◌then◌else◌, codes,
}
use slai.Text.{Str}
use slai.Api.Errors.{Failure, Outcome, resolved, rejected, readable_error, is_unauthorized}
use slai.Api.User.{User}

-- `pathname` is that of the effect that sent the request.
pub data Effect : Type 0 where
  get_me : (number : ℕ) (pathname : Str) → Effect
  replace : (path : Str) → Effect

pub record Shell : Type 0 where
  pub user : Option User
  pub loading : Bool
  pub error : Option String
  pub last : ℕ
  pub mounted : Bool

unfoldable pub initial : Shell
initial = record { user = none; loading = true; error = none; last = 0; mounted = true }

-- `useEffect`, at first and whenever the path changes.
unfoldable pub start_effect : (pathname : Str) → Shell → Shell × List Effect
start_effect pathname s = (record s { last = s.last + 1 }, get_me (s.last + 1) pathname ∷ [])

module _ (encode : Str → Str) where
  -- An answer that is not cancelled.
  unfoldable pub after_me : (pathname : Str) → Outcome User → Shell → Shell × List Effect
  after_me pathname (resolved user) s = (record s { user = some user; loading = false }, [])
  after_me pathname (rejected e) s =
      if is_unauthorized e
      then (record s { loading = false }, replace (codes "/login?next=" ++ encode pathname) ∷ [])
      else (record s { error = some (readable_error e); loading = false }, [])

  pub data Event : Type 0 where
    path_changed : (pathname : Str) → Event
    unmounted : Event
    me_answered : (number : ℕ) (pathname : Str) → Outcome User → Event

  unfoldable pub step : Shell → Event → Shell × List Effect
  unfolding start_effect after_me
  step s (path_changed pathname) = start_effect pathname s
  step s unmounted = (record s { mounted = false }, [])
  step s (me_answered number pathname answer) =
      if s.mounted && number == s.last then after_me pathname answer s else (s, [])

  unfoldable pub run : Shell → List Event → Shell
  unfolding step
  run s [] = s
  run s (event ∷ events) = run (step s event).0 events

-- What the shell renders.
pub data View : Type 0 where
  checking_session nothing : View
  error_state : (message : String) → View
  content : User → View

abbrev pub of_user : Option User → View
of_user none = nothing
of_user (some user) = content user

abbrev pub of_error : Option String → Option User → View
of_error (some message) user = error_state message
of_error none user = of_user user

unfoldable pub view : Shell → View
view s = if s.loading then checking_session else of_error s.error s.user

pub data Section : Type 0 where
  public dashboard admin : Section

-- `logoutRedirect ?? (section === "admin" ? "/admin/login" : "/login")`
unfoldable pub logout_target : Option Str → Section → Str
logout_target (some path) section = path
logout_target none admin = codes "/admin/login"
logout_target none public = codes "/login"
logout_target none dashboard = codes "/login"

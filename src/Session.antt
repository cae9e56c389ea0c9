-- ===== src/Session.antt =====
-- The sessions of the console: `AdminShell` (apps/web/src/components/AdminShell.tsx) and
-- `DashboardShell` (apps/web/src/components/DashboardShell.tsx). Each asks for the session when
-- its path changes. An answer belongs to one of these requests, numbered in order, and is dropped
-- when a later request has been made or the shell has gone; answers may come in any order.
pub mod Laws
use slai.Base.{
  ℕ, suc, ◌==◌, Bool, true, false, not, ◌||◌, List, [], ◌∷◌, ◌++◌, Option, none, some, String,
  if◌then◌else◌, codes,
}
use slai.Text.{Str, equals, starts_with}
use slai.Api.Errors.{Failure, Outcome, resolved, rejected, readable_error, is_unauthorized}
use slai.Api.User.{User, is_admin}

-- `Sync` is the status of the usage synchronisation.
pub record AdminShell (Sync : Type 0) : Type 0 where
  pub cached_user : Option User
  pub cached_sync : Option Sync
  pub user : Option User
  pub forbidden_user : Option User
  pub sync_status : Option Sync
  pub loading : Bool
  pub error : Option String
  pub request : ℕ

pub data Effect : Type 0 where
  call_me : (request : ℕ) → Effect
  call_sync_status : (request : ℕ) → Effect
  call_logout : Effect
  replace_with_login : (next : Str) → Effect
  push_login : Effect
  refresh : Effect

pub data View (Sync : Type 0) : Type 0 where
  checking : View Sync
  error_page : (message : String) → View Sync
  forbidden : User → View Sync
  blank : View Sync
  frame : User → Option Sync → View Sync

abbrev is_none {ℓ} : {A : Type ℓ} → Option A → Bool
is_none none = true
is_none (some _) = false

module _ {Sync : Type 0} where
  -- A page that mounts takes the module's cache; the request of its first effect is the next one.
  unfoldable pub mount : AdminShell Sync → AdminShell Sync × List Effect
  mount s = (
    record s {
      user = s.cached_user;
      forbidden_user = none;
      sync_status = s.cached_sync;
      loading = is_none s.cached_user;
      error = none;
      request = suc s.request;
    },
    call_me (suc s.request) ∷ [],
  )

  -- The effect after the path has changed under a shell that stays.
  unfoldable pub change_path : AdminShell Sync → AdminShell Sync × List Effect
  change_path s = (record s { request = suc s.request }, call_me (suc s.request) ∷ [])

  unfoldable pub unmount : AdminShell Sync → AdminShell Sync
  unmount s = record s { request = suc s.request }

  unfoldable pub after_me :
      (pathname : Str) → AdminShell Sync → Outcome User → AdminShell Sync × List Effect
  after_me pathname s (resolved u) =
      if not (is_admin (some u))
      then (
        record s {
          cached_user = none;
          cached_sync = none;
          user = none;
          forbidden_user = some u;
          loading = false;
        },
        [],
      )
      else (
        record s { cached_user = some u; user = some u; forbidden_user = none; loading = false },
        call_sync_status s.request ∷ [],
      )
  after_me pathname s (rejected e) =
      if is_unauthorized e
      then (
        record s { cached_user = none; cached_sync = none; user = none; loading = false },
        replace_with_login pathname ∷ [],
      )
      else (record s { error = some (readable_error e); loading = false }, [])

  unfoldable pub after_sync_status : AdminShell Sync → Outcome Sync → AdminShell Sync
  after_sync_status s (resolved x) = record s { cached_sync = some x; sync_status = some x }
  after_sync_status s (rejected _) = record s { cached_sync = none; sync_status = none }

  unfoldable pub log_out : AdminShell Sync → Outcome (Unit {0}) → AdminShell Sync × List Effect
  log_out s (resolved _) =
      (record s { cached_user = none; cached_sync = none }, call_logout ∷ push_login ∷ refresh ∷ [])
  log_out s (rejected _) = (record s { cached_user = none; cached_sync = none }, call_logout ∷ [])

  -- The early returns of the shell, in their order.
  unfoldable pub render :
      (loading : Bool) (error : Option String) (forbidden_user user : Option User)
      → Option Sync
      → View Sync
  render true error forbidden_user user sync = checking
  render false (some message) forbidden_user user sync = error_page message
  render false none (some u) user sync = forbidden u
  render false none none none sync = blank
  render false none none (some u) sync = frame u sync

  unfoldable pub view : AdminShell Sync → View Sync
  unfolding render
  view s = render s.loading s.error s.forbidden_user s.user s.sync_status

pub data Event (Sync : Type 0) : Type 0 where
  mounted path_changed unmounted : Event Sync
  me_answered : (request : ℕ) (pathname : Str) → Outcome User → Event Sync
  sync_answered : (request : ℕ) → Outcome Sync → Event Sync
  logged_out : Outcome (Unit {0}) → Event Sync

module _ {Sync : Type 0} where
  unfoldable pub step : AdminShell Sync → Event Sync → AdminShell Sync × List Effect
  unfolding mount change_path unmount after_me after_sync_status log_out
  step s mounted = mount s
  step s path_changed = change_path s
  step s unmounted = (unmount s, [])
  step s (me_answered request pathname answer) =
      if request == s.request then after_me pathname s answer else (s, [])
  step s (sync_answered request answer) =
      if request == s.request then (after_sync_status s answer, []) else (s, [])
  step s (logged_out answer) = log_out s answer

  unfoldable pub run : AdminShell Sync → List (Event Sync) → AdminShell Sync × List Effect
  run s [] = (s, [])
  run s (e ∷ es) = let (t, effects) = step s e in let (u, later) = run t es in (u, effects ++ later)

-- `isActiveAdminPath`, and `isActiveDashboardPath` of apps/web/src/components/AppShell.tsx: the
-- home entry is active on its own page, another entry also below its page.
unfoldable pub is_active_path : (home : Str) → (pathname href : Str) → Bool
unfolding equals starts_with
is_active_path home pathname href =
    if equals href home
    then equals pathname href
    else equals pathname href || starts_with (href ++ codes "/") pathname

-- The module's state before any page has mounted.
abbrev pub fresh : (Sync : Type 0) → AdminShell Sync
fresh Sync = record {
  cached_user = none;
  cached_sync = none;
  user = none;
  forbidden_user = none;
  sync_status = none;
  loading = true;
  error = none;
  request = 0;
}

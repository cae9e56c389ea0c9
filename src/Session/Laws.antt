-- ===== src/Session/Laws.antt =====
-- Who sees the admin console.
use slai.Base.{
  ◌==◌, ◌≡◌, Bool, true, false, not, List, [], ◌∷◌, Option, none, some, String, arith, if_split,
}
use slai.Text.{Str}
use slai.Api.Errors.{Outcome, resolved, rejected, is_unauthorized}
use slai.Api.User.{User, is_admin}
use slai.Session.{
  AdminShell, Effect, View, checking, error_page, forbidden, blank, frame, after_me,
  after_sync_status, render, view, Event, mounted, path_changed, unmounted, me_answered,
  sync_answered, logged_out, step, run, fresh,
}

abbrev pub IsAdminOrNone : Option User → Type 0
IsAdminOrNone none = Unit
IsAdminOrNone (some u) = is_admin (some u) ≡ true

abbrev pub IsUserOrNone : Option User → Type 0
IsUserOrNone none = Unit
IsUserOrNone (some u) = is_admin (some u) ≡ false

-- The cache and the shell hold administrators only, and no administrator is turned away.
pub record Inv {Sync : Type 0} (s : AdminShell Sync) : Type 0 where
  pub cached : IsAdminOrNone s.cached_user
  pub current : IsAdminOrNone s.user
  pub turned_away : IsUserOrNone s.forbidden_user

abbrev InvAfter : {Sync : Type 0} → AdminShell Sync × List Effect → Type 0
InvAfter r = Inv r.0

not-false : (b : Bool) → not b ≡ false → b ≡ true
not-false b h = ground arith

not-true : (b : Bool) → not b ≡ true → b ≡ false
not-true b h = ground arith

module _ {Sync : Type 0} where
  after_me-Inv :
      (pathname : Str) (s : AdminShell Sync) (answer : Outcome User)
      → Inv s
      → InvAfter (after_me pathname s answer)
  unfolding after_me
  after_me-Inv pathname s (resolved u) h =
      if_split InvAfter (not (is_admin (some u)))
        (λ e. record { cached = tt; current = tt; turned_away = not-true (is_admin (some u)) e })
        (λ e. record {
          cached = not-false (is_admin (some u)) e;
          current = not-false (is_admin (some u)) e;
          turned_away = tt;
        })
  after_me-Inv pathname s (rejected x) h =
      if_split InvAfter (is_unauthorized x)
        (λ e. record { cached = tt; current = tt; turned_away = h.turned_away })
        (λ e. record { cached = h.cached; current = h.current; turned_away = h.turned_away })

  after_sync-Inv :
      (s : AdminShell Sync) (answer : Outcome Sync) → Inv s → Inv (after_sync_status s answer)
  unfolding after_sync_status
  after_sync-Inv s (resolved x) h = record {
    cached = h.cached;
    current = h.current;
    turned_away = h.turned_away;
  }
  after_sync-Inv s (rejected e) h = record {
    cached = h.cached;
    current = h.current;
    turned_away = h.turned_away;
  }

  step-Inv : (s : AdminShell Sync) (e : Event Sync) → Inv s → InvAfter (step s e)
  unfolding step
  step-Inv s mounted h = record { cached = h.cached; current = h.cached; turned_away = tt }
  step-Inv s path_changed h = record {
    cached = h.cached;
    current = h.current;
    turned_away = h.turned_away;
  }
  step-Inv s unmounted h = record {
    cached = h.cached;
    current = h.current;
    turned_away = h.turned_away;
  }
  step-Inv s (me_answered request pathname answer) h =
      if_split InvAfter (request == s.request) (λ e. after_me-Inv pathname s answer h) (λ e. h)
  step-Inv s (sync_answered request answer) h =
      if_split InvAfter (request == s.request) (λ e. after_sync-Inv s answer h) (λ e. h)
  step-Inv s (logged_out (resolved u)) h = record {
    cached = tt;
    current = h.current;
    turned_away = h.turned_away;
  }
  step-Inv s (logged_out (rejected e)) h = record {
    cached = tt;
    current = h.current;
    turned_away = h.turned_away;
  }

  -- After any events, in any order of the answers, the cached and the current user of the admin
  -- shell are administrators where there are any, and a user who is turned away is not one.
  pub run-Inv : (es : List (Event Sync)) (s : AdminShell Sync) → Inv s → Inv (run s es).0
  unfolding run
  run-Inv [] s h = h
  run-Inv (e ∷ es) s h = run-Inv es (step s e).0 (step-Inv s e h)

-- Who may be on the screen: an administrator in the frame, another user on the page that refuses.
abbrev pub IsSuitable : {Sync : Type 0} → View Sync → Type 0
IsSuitable checking = Unit
IsSuitable (error_page message) = Unit
IsSuitable (forbidden u) = is_admin (some u) ≡ false
IsSuitable blank = Unit
IsSuitable (frame u sync) = is_admin (some u) ≡ true

render-IsSuitable :
    {Sync : Type 0} (loading : Bool) (error : Option String) (forbidden_user user : Option User)
    (sync : Option Sync)
    → IsUserOrNone forbidden_user
    → IsAdminOrNone user
    → IsSuitable (render loading error forbidden_user user sync)
unfolding render
render-IsSuitable true error f u sync h k = tt
render-IsSuitable false (some message) f u sync h k = tt
render-IsSuitable false none (some f) u sync h k = h
render-IsSuitable false none none none sync h k = tt
render-IsSuitable false none none (some u) sync h k = k

view-IsSuitable : {Sync : Type 0} (s : AdminShell Sync) → Inv s → IsSuitable (view s)
unfolding view
view-IsSuitable s h =
    render-IsSuitable s.loading s.error s.forbidden_user s.user s.sync_status h.turned_away
      h.current

-- After any events since the console was loaded, in any order of the answers, only an administrator
-- is shown the admin pages, and only another user the page that refuses them.
pub run-IsSuitable :
    {Sync : Type 0} (es : List (Event Sync)) → IsSuitable (view (run (fresh Sync) es).0)
run-IsSuitable {Sync} es =
    view-IsSuitable (run (fresh Sync) es).0
      (run-Inv es (fresh Sync) (record { cached = tt; current = tt; turned_away = tt }))

-- ===== src/Auth/AdminLogin/Laws.antt =====
-- Who passes the admin sign-in, and where to.
use slai.Base.{
  ◌≡◌, ◌↔◌, refl, Bool, true, false, ◌||◌, List, [], ◌∷◌, Option, none, some, All, arith,
  Bool-cases, inl, inr, if_split,
}
use slai.Text.{Str, starts_with}
use slai.Api.Errors.{Failure, Outcome, resolved, rejected, readable_error, is_unauthorized}
use slai.Api.User.{User, is_admin}
use slai.Auth.Login.Laws.{BeginsWith, starts_with→BeginsWith}
use slai.Auth.AdminLogin.{
  AdminLogin, Effect, call_login, call_me, call_logout, push, replace, refresh, admin_home,
  no_access, initial, target, read_next, after_session, open_page, submit,
}

abbrev pub opens : Effect → Bool
opens (push path) = true
opens (replace path) = true
opens _ = false

abbrev pub any_opens : List Effect → Bool
any_opens [] = false
any_opens (e ∷ es) = opens e || any_opens es

-- A page that is opened is under /admin.
abbrev pub IsAdminPath : Effect → Type 0
IsAdminPath (push path) = BeginsWith admin_home path
IsAdminPath (replace path) = BeginsWith admin_home path
IsAdminPath _ = Unit

-- An answer that names an administrator.
abbrev pub IsAdminAnswer : Outcome User → Type 0
IsAdminAnswer (resolved u) = is_admin (some u) ≡ true
IsAdminAnswer (rejected e) = ⊥

abbrev pub IsResolved : Outcome (Unit {0}) → Type 0
IsResolved (resolved _) = Unit
IsResolved (rejected e) = ⊥

-- What submitting comes to: a failure of one of the calls is shown and opens nothing; an account
-- that is not an administrator's is signed out again; an administrator goes to the next path.
pub data Submitted (s : AdminLogin)
    : Outcome (Unit {0})
      → Outcome User
      → Outcome (Unit {0})
      → AdminLogin
      → List Effect
      → Type 0 where
  not_signed_in :
      {e : Failure} {me : Outcome User} {out : Outcome (Unit {0})}
      → Submitted s
          (rejected e)
          me
          out
          (record s { error = some (readable_error e); loading = false })
          (call_login s.email s.password ∷ [])
  no_session :
      {u : Unit {0}} {e : Failure} {out : Outcome (Unit {0})}
      → Submitted s
          (resolved u)
          (rejected e)
          out
          (record s { error = some (readable_error e); loading = false })
          (call_login s.email s.password ∷ call_me ∷ [])
  signed_out :
      {u v : Unit {0}} {x : User}
      → is_admin (some x) ≡ false
      → Submitted s
          (resolved u)
          (resolved x)
          (resolved v)
          (record s { error = some no_access; loading = false })
          (call_login s.email s.password ∷ call_me ∷ call_logout ∷ [])
  not_signed_out :
      {u : Unit {0}} {x : User} {e : Failure}
      → is_admin (some x) ≡ false
      → Submitted s
          (resolved u)
          (resolved x)
          (rejected e)
          (record s { error = some (readable_error e); loading = false })
          (call_login s.email s.password ∷ call_me ∷ call_logout ∷ [])
  entered :
      {u : Unit {0}} {x : User} {out : Outcome (Unit {0})}
      → is_admin (some x) ≡ true
      → Submitted s
          (resolved u)
          (resolved x)
          out
          (record s { error = none; loading = false })
          (call_login s.email s.password ∷ call_me ∷ push s.next_path ∷ refresh ∷ [])

-- Submitting opens a page exactly when the sign-in is accepted and the session then names an
-- administrator.
submit-opens_iff :
    (s : AdminLogin) (login : Outcome (Unit {0})) (me : Outcome User) (out : Outcome (Unit {0}))
    → (any_opens (submit s login me out).1 ≡ true) ↔ (IsResolved login × IsAdminAnswer me)
unfolding submit
submit-opens_iff s (rejected e) me out = ground arith
submit-opens_iff s (resolved u) (rejected e) out = ground arith
submit-opens_iff s (resolved u) (resolved x) out = elim (Bool-cases (is_admin (some x))) [
  | inl h ↦ rw h (λ k. (tt, refl), λ k. refl)
  | inr h ↦ rw h (λ k. cc, λ k. cc)
]

-- Submitting ends in one of five ways, given by the three answers: a refused sign-in or a refused
-- session shows its error; an account that is not an administrator's is signed out, and the message
-- says that it has no access, or the error of signing out; an administrator is sent to the next
-- path. Loading is over in each, and the calls are made in the order sign-in, session, sign-out.
submit-Submitted :
    (s : AdminLogin) (login : Outcome (Unit {0})) (me : Outcome User) (out : Outcome (Unit {0}))
    → Submitted s login me out (submit s login me out).0 (submit s login me out).1
unfolding submit
submit-Submitted s (rejected e) me out = not_signed_in
submit-Submitted s (resolved u) (rejected e) out = no_session
submit-Submitted s (resolved u) (resolved x) (resolved v) = elim (Bool-cases (is_admin (some x))) [
  | inl h ↦ rw h (entered h)
  | inr h ↦ rw h (signed_out h)
]
submit-Submitted s (resolved u) (resolved x) (rejected e) = elim (Bool-cases (is_admin (some x))) [
  | inl h ↦ rw h (entered h)
  | inr h ↦ rw h (not_signed_out h)
]

target-BeginsWith : (next : Option Str) → BeginsWith admin_home (target next)
unfolding target
target-BeginsWith none = ([], refl)
target-BeginsWith (some next) =
    if_split (BeginsWith admin_home) (starts_with admin_home next)
      (starts_with→BeginsWith admin_home next) (λ e. ([], refl))

-- Opening the page moves on exactly when it is still open at the answer and the session is an
-- administrator's.
open_page-opens_iff :
    (next : Option Str) (cancelled : Bool) (answer : Outcome User)
    → (any_opens (open_page next cancelled answer).1 ≡ true)
      ↔ ((cancelled ≡ false) × IsAdminAnswer answer)
unfolding open_page
open_page-opens_iff next true answer = (λ k. cc, λ k. cc)
open_page-opens_iff next false (rejected e) = elim (Bool-cases (is_unauthorized e)) [
  | inl h ↦ rw h (λ k. cc, λ k. absurd k.1)
  | inr h ↦ rw h (λ k. cc, λ k. absurd k.1)
]
open_page-opens_iff next false (resolved x) = elim (Bool-cases (is_admin (some x))) [
  | inl h ↦ rw h (λ k. (refl, refl), λ k. refl)
  | inr h ↦ rw h (λ k. cc, λ k. cc)
]

abbrev Under : AdminLogin × List Effect → Type 0
Under r = BeginsWith admin_home r.0.next_path × All IsAdminPath r.1

after_session-Under :
    (next : Option Str) (s : AdminLogin) (answer : Outcome User)
    → BeginsWith admin_home s.next_path
    → Under (after_session next s answer)
unfolding after_session
after_session-Under next s (resolved x) h =
    if_split Under (is_admin (some x)) (λ e. (h, (target-BeginsWith next, tt))) (λ e. (h, tt))
after_session-Under next s (rejected x) h =
    if_split Under (is_unauthorized x) (λ e. (h, tt)) (λ e. (h, tt))

read_next-BeginsWith :
    (next : Option Str) → BeginsWith admin_home (read_next next initial).next_path
unfolding read_next initial
read_next-BeginsWith none = ([], refl)
read_next-BeginsWith (some next) =
    if_split (λ (s : AdminLogin). BeginsWith admin_home s.next_path) (starts_with admin_home next)
      (starts_with→BeginsWith admin_home next) (λ e. ([], refl))

open_page-Under :
    (next : Option Str) (cancelled : Bool) (answer : Outcome User)
    → Under (open_page next cancelled answer)
unfolding open_page
open_page-Under next true answer = (read_next-BeginsWith next, (tt, tt))
open_page-Under next false answer =
    let (h, k) =
      after_session-Under next (read_next next initial) answer (read_next-BeginsWith next) in
    (h, (tt, k))

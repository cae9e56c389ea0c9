-- ===== src/Auth/Login/Laws.antt =====
-- Where the sign-in page can send its user, and what it sends to the API.
use slai.Base.{
  ℕ, zero, suc, Option, ◌≡◌, ◌≢◌, refl, true, List, [], ◌∷◌, ◌++◌, none, some, ◌==◌, All,
  All-append, if_split, &&-true, ==_iff, inl, inr, Bool-cases, arith,
}
use slai.Text.{Str, trim, starts_with}
use slai.Api.Errors.{Outcome, resolved, rejected}
use slai.Auth.{is_clear, validate_login, email_error, looks_like_email}
use slai.Auth.Laws.{IsEmail, looks_like_email_iff}
use slai.Auth.Login.{
  Login, Effect, call_login, call_google, push, refresh, dashboard, submit, continue_with_google,
  Live, starts, put_back, pick, answer, only_page, Event, typed_email, typed_password, opened,
  submitted, google_credential, google_failed, answered, step, run,
}

-- `p` followed by anything.
abbrev pub BeginsWith : Str → Str → Type 0
BeginsWith p s = (rest : Str) × (s ≡ p ++ rest)

pub starts_with→BeginsWith : (p s : Str) → starts_with p s ≡ true → BeginsWith p s
unfolding starts_with
starts_with→BeginsWith [] s h = (s, refl)
starts_with→BeginsWith (c ∷ p) [] h = cc
starts_with→BeginsWith (c ∷ p) (d ∷ s) h =
    let (k, r) = &&-true (c == d) (starts_with p s) h in
    let (rest, e) = starts_with→BeginsWith p s r in (rest, rw ((==_iff c d).0 k, e) refl)

abbrev pub IsAllowed : Effect → Type 0
IsAllowed (call_login email password) = IsEmail email × (password ≢ [])
IsAllowed (call_google credential) = Unit
IsAllowed (push path) = BeginsWith dashboard path
IsAllowed refresh = Unit

validate_login-allowed :
    (email password : Str)
    → is_clear (validate_login email password) ≡ true
    → IsEmail (trim email) × (password ≢ [])
unfolding is_clear validate_login email_error
validate_login-allowed email [] h = ground arith
validate_login-allowed email (c ∷ password) h = elim (Bool-cases (looks_like_email email)) [
  | inl e ↦ ((looks_like_email_iff email).0 e, λ k. cc)
  | inr e ↦ ground arith
]

abbrev pub Inv : Live → Type 0
Inv l = BeginsWith dashboard l.page.next_path × All (BeginsWith dashboard) l.pending

abbrev InvAfter : Live × List Effect → Type 0
InvAfter r = Inv r.0 × All IsAllowed r.1

-- A handler that was started keeps the next path, and makes calls that are allowed.
abbrev IsStart : Login → Login × List Effect → Type 0
IsStart s r = (r.0.next_path ≡ s.next_path) × All IsAllowed r.1

submit-IsStart : (s : Login) → IsStart s (submit s)
unfolding submit
submit-IsStart s =
    if_split (IsStart s) (is_clear (validate_login s.email s.password))
      (λ e. (refl, (validate_login-allowed s.email s.password e, tt))) (λ e. (refl, tt))

starts-allowed :
    (l : Live) (r : Login × List Effect) → Inv l → IsStart l.page r → InvAfter (starts l r)
starts-allowed l (t, []) (next, ps) (same, _) = ((rw same next, ps), tt)
starts-allowed l (t, e ∷ es) (next, ps) (same, ok) = ((rw same next, (next, ps)), ok)

abbrev Picked : Option (Str × List Str) → Type 0
Picked none = Unit
Picked (some (next, rest)) = BeginsWith dashboard next × All (BeginsWith dashboard) rest

put_back-Picked :
    (q : Str) (o : Option (Str × List Str))
    → BeginsWith dashboard q
    → Picked o
    → Picked (put_back q o)
put_back-Picked q none h k = tt
put_back-Picked q (some (next, rest)) h (kp, kr) = (kp, (h, kr))

pick-Picked : (n : ℕ) (ps : List Str) → All (BeginsWith dashboard) ps → Picked (pick n ps)
unfolding pick
pick-Picked n [] h = tt
pick-Picked zero (p ∷ ps) (h, k) = (h, k)
pick-Picked (suc n) (p ∷ ps) (h, k) = put_back-Picked p (pick n ps) h (pick-Picked n ps k)

answer-allowed :
    (o : Option (Str × List Str)) (outcome : Outcome (Unit {0})) (l : Live)
    → Inv l
    → Picked o
    → InvAfter (answer o outcome l)
unfolding answer
answer-allowed none outcome l i h = (i, tt)
answer-allowed (some (next, rest)) (resolved u) l (path, ps) (hp, hr) = ((path, hr), (hp, (tt, tt)))
answer-allowed (some (next, rest)) (rejected x) l (path, ps) (hp, hr) = ((path, hr), tt)

step-allowed : (l : Live) (e : Event) → Inv l → InvAfter (step l e)
unfolding step continue_with_google
step-allowed l (typed_email value) i =
    if_split InvAfter l.page.loading (λ e. (i, tt)) (λ e. (i, tt))
step-allowed l (typed_password value) i =
    if_split InvAfter l.page.loading (λ e. (i, tt)) (λ e. (i, tt))
step-allowed l (opened none) i = (i, tt)
step-allowed l (opened (some next)) (path, ps) =
    if_split (λ t. InvAfter (only_page t l, [])) (starts_with dashboard next)
      (λ e. ((starts_with→BeginsWith dashboard next e, ps), tt)) (λ e. ((path, ps), tt))
step-allowed l submitted i =
    if_split InvAfter l.page.loading (λ e. (i, tt))
      (λ e. starts-allowed l (submit l.page) i (submit-IsStart l.page))
step-allowed l (google_credential credential) i =
    starts-allowed l (continue_with_google credential l.page) i (refl, (tt, tt))
step-allowed l (google_failed message) i = (i, tt)
step-allowed l (answered n outcome) i =
    answer-allowed (pick n l.pending) outcome l i (pick-Picked n l.pending i.1)

run_from : (l : Live) (es : List Event) → Inv l → InvAfter (run l es)
unfolding run
run_from l [] i = (i, tt)
run_from l (e ∷ es) i =
    let (k, now) = step-allowed l e i in
    let (inv, later) = run_from (step l e).0 es k in
    (inv, All-append IsAllowed (step l e).1 (run (step l e).0 es).1 now later)

-- After any events from a state whose next path begins with the text "/dashboard" and that waits
-- for no call, in any order of the answers, the next path still begins with it and so does every
-- path that the page was sent to, whatever the query's `next` was: it is a path of the console
-- itself and no other site. And only e-mail addresses with a non-empty password have been sent.
pub run-next_path :
    (es : List Event) (s : Login)
    → BeginsWith dashboard s.next_path
    → BeginsWith dashboard (run (record { page = s; pending = [] }) es).0.page.next_path
      × All IsAllowed (run (record { page = s; pending = [] }) es).1
run-next_path es s h =
    let ((path, ps), allowed) = run_from (record { page = s; pending = [] }) es (h, tt) in
    (path, allowed)

-- ===== src/Tests/Auth.antt =====
-- The sign-in pages and their checks on examples.
use slai.Base.{◌≡◌, ◌↔◌, refl, true, List, [], ◌∷◌, none, some, codes, All}
use slai.Text.{Str, trim}
use slai.Text.Regex.{test}
use slai.Api.Errors.{Failure, api_error, resolved, rejected}
use slai.Auth.{looks_like_email, validate_otp, validate_signup, is_clear, otp_input}
use slai.Auth.Laws.{IsEmail, looks_like_email_iff}
use slai.Auth.Signup as S
use slai.Auth.Signup.Laws as SL
use slai.Auth.Login as L
use slai.Auth.Login.Laws as LL
use slai.Auth.Reset as R
use slai.Auth.Reset.Laws as RL

abbrev address : Str
address = codes "ada@example.com"

looks_like_email_iff_example : (looks_like_email address ≡ true) ↔ IsEmail (trim address)
looks_like_email_iff_example = looks_like_email_iff address

abbrev offline : Failure
offline = api_error "offline" 503 none

abbrev signup_events : List S.Event
signup_events =
    S.typed_email address
    ∷ S.typed_password (codes "analytical")
    ∷ S.submitted
    ∷ S.answered 0 (resolved (record { email = address; expires_at = "12:00" })) (rejected offline)
    ∷ S.typed_otp (codes "123456")
    ∷ S.submitted
    ∷ S.google_credential (codes "credential")
    ∷ []

run-Inv_example :
    SL.Inv (S.run S.opened signup_events).0 × All SL.IsAllowed (S.run S.opened signup_events).1
run-Inv_example = SL.run-Inv signup_events

abbrev accepted : S.Event
accepted = S.answered 1 (rejected offline) (resolved tt)

signup_events-push : SL.pushes (S.step (S.run S.opened signup_events).0 accepted).1 ≡ true
unfolding S.run S.step S.opened is_clear validate_otp trim test validate_signup looks_like_email
    otp_input
signup_events-push = refl

step-Admits_example : SL.Admits (S.run S.opened signup_events).0 accepted
step-Admits_example = SL.step-Admits signup_events accepted signup_events-push

abbrev reset_events : List R.Event
reset_events =
    R.typed_email address
    ∷ R.submitted (resolved (record { email = address; expires_at = "12:00" })) (rejected offline)
    ∷ R.typed_otp (codes "654321")
    ∷ R.typed_password (codes "difference")
    ∷ R.submitted (rejected offline) (resolved tt)
    ∷ []

run-initial_example :
    RL.Inv (R.run R.initial reset_events).0 × All RL.IsAllowed (R.run R.initial reset_events).1
run-initial_example = RL.run-initial reset_events

abbrev login_events : List L.Event
login_events =
    L.opened (some (codes "/dashboard/billing"))
    ∷ L.google_credential (codes "credential")
    ∷ L.answered 0 (resolved tt)
    ∷ []

run-next_path_example :
    LL.BeginsWith L.dashboard
      (L.run (record { page = L.initial; pending = [] }) login_events).0.page.next_path
    × All LL.IsAllowed (L.run (record { page = L.initial; pending = [] }) login_events).1
unfolding L.initial
run-next_path_example = LL.run-next_path login_events L.initial ([], refl)

-- ===== src/Auth/Signup/Laws.antt =====
-- What holds of the sign-up page after any events, in any order of the answers.
use slai.Base.{
  ℕ, zero, suc, ◌≤◌, ◌≡◌, ◌≢◌, refl, Bool, true, false, not, ◌&&◌, List, [], ◌∷◌, Option, none,
  some, String, length, all, arith, All, All-append, if_split, ◌∙◌, sym,
}
use slai.Text.{Str, trim, is_digit}
use slai.Api.Errors.{Failure, Outcome, resolved, rejected}
use slai.Auth.{is_clear, validate_signup, validate_otp}
use slai.Auth.Laws.{IsEmail, validate_signup_iff, validate_otp_iff, otp_input-all, otp_input-le}
use slai.Auth.Signup.{
  Signup, Verification, Call, signup, verify, google, Effect, send, push, refresh, Started,
  after_signup, request_signup_otp, otp_errors, verify_signup, continue_with_google, submit,
  after_entry, change_email, type_email, type_password, type_otp, Pending, Live, opened, start,
  put_back, pick, after_call, answer, Event, typed_email, typed_password, typed_otp, submitted,
  resent, changed_email, google_credential, google_failed, answered, edit, step, run,
}

-- What holds of the fields.
pub record PageInv (s : Signup) : Type 0 where
  pub otp_digits : all is_digit s.otp ≡ true
  pub otp_short : length s.otp ≤ 6
  pub sent_expires : s.verification_sent ≡ true → s.expires_at ≢ none
  pub unsent_clear : s.verification_sent ≡ false → (s.otp ≡ []) × (s.expires_at ≡ none)

-- What may be called from a state: a sign-up with an e-mail address and a password that is long
-- enough, and the code of the field, of six digits, where one had been sent.
abbrev pub IsJustified : Call → Signup → Type 0
IsJustified (signup email password) s = IsEmail email × (8 ≤ length password)
IsJustified (verify email otp) s =
    (s.verification_sent ≡ true) × (otp ≡ trim s.otp) × (length otp ≡ 6) × (all is_digit otp ≡ true)
IsJustified (google credential) s = Unit

abbrev pub IsPending : Pending → Type 0
IsPending p = IsJustified p.call p.origin

pub record Inv (l : Live) : Type 0 where
  pub page : PageInv l.page
  pub busy : l.page.loading ≡ true → l.pending ≢ []
  pub justified : All IsPending l.pending

-- What may be sent, and where the page may go.
abbrev pub IsAllowed : Effect → Type 0
IsAllowed (send (signup email password)) = IsEmail email × (8 ≤ length password)
IsAllowed (send (verify email otp)) = (length otp ≡ 6) × (all is_digit otp ≡ true)
IsAllowed (send (google credential)) = Unit
IsAllowed (push path) = path ≡ "/dashboard"
IsAllowed refresh = Unit

-- The invariant of what a step leaves, and that what it did is allowed.
abbrev pub Fine : Live × List Effect → Type 0
Fine r = Inv r.0 × All IsAllowed r.1

-- A handler that was started in `s`.
abbrev IsStart : Signup → Started → Type 0
IsStart s (t, none) = PageInv t × (t.loading ≡ s.loading)
IsStart s (t, some c) = PageInv t × IsJustified c s

justified-IsAllowed : (c : Call) (s : Signup) → IsJustified c s → IsAllowed (send c)
justified-IsAllowed (signup email password) s h = h
justified-IsAllowed (verify email otp) s (sent, same, six, digits) = (six, digits)
justified-IsAllowed (google credential) s h = tt

start-Fine : (l : Live) (r : Started) → Inv l → IsStart l.page r → Fine (start l r)
unfolding start
start-Fine l (t, none) i (page, same) =
    (record { page = page; busy = λ h. i.busy (sym same ∙ h); justified = i.justified }, tt)
start-Fine l (t, some c) i (page, justified) = (
  record { page = page; busy = λ h q. cc; justified = (justified, i.justified) },
  (justified-IsAllowed c l.page justified, tt),
)

request-IsStart : (s : Signup) → PageInv s → IsStart s (request_signup_otp s)
unfolding request_signup_otp
request-IsStart s i =
    if_split (IsStart s) (is_clear (validate_signup s.email s.password))
      (λ e. (ground arith, (validate_signup_iff s.email s.password).0 e))
      (λ e. (ground arith, refl))

abbrev required : String
required = "Verification code is required."

otp-clear : (otp : Str) → is_clear (otp_errors otp) ≡ true → validate_otp required otp ≡ none
unfolding is_clear
otp-clear otp h = ground arith

verify-IsStart : (s : Signup) → s.verification_sent ≡ true → PageInv s → IsStart s (verify_signup s)
unfolding verify_signup
verify-IsStart s sent i =
    if_split (IsStart s) (is_clear (otp_errors s.otp))
      (λ e.
        let (six, digits) = (validate_otp_iff required s.otp).0 (otp-clear s.otp e) in
        (ground arith, (sent, refl, six, digits)))
      (λ e. (ground arith, refl))

submit-IsStart : (s : Signup) → PageInv s → IsStart s (submit s)
unfolding submit
submit-IsStart s i =
    if_split (IsStart s) s.verification_sent (λ e. verify-IsStart s e i) (λ e. request-IsStart s i)

google-IsStart :
    (credential : Str) (s : Signup) → PageInv s → IsStart s (continue_with_google credential s)
unfolding continue_with_google
google-IsStart credential s i = (ground arith, tt)

after_call-PageInv :
    (c : Call) (signed_up : Outcome Verification) (entered : Outcome (Unit {0})) (s : Signup)
    → PageInv s
    → PageInv (after_call c signed_up entered s).0
      × ((after_call c signed_up entered s).0.loading ≡ false)
unfolding after_call after_signup after_entry
after_call-PageInv (signup email password) (resolved v) entered s i = (ground arith, refl)
after_call-PageInv (signup email password) (rejected x) entered s i = (ground arith, refl)
after_call-PageInv (verify email otp) signed_up (resolved u) s i = (ground arith, refl)
after_call-PageInv (verify email otp) signed_up (rejected x) s i = (ground arith, refl)
after_call-PageInv (google credential) signed_up (resolved u) s i = (ground arith, refl)
after_call-PageInv (google credential) signed_up (rejected x) s i = (ground arith, refl)

after_call-IsAllowed :
    (c : Call) (signed_up : Outcome Verification) (entered : Outcome (Unit {0})) (s : Signup)
    → All IsAllowed (after_call c signed_up entered s).1
unfolding after_call after_entry
after_call-IsAllowed (signup email password) signed_up entered s = tt
after_call-IsAllowed (verify email otp) signed_up (resolved u) s = (refl, (tt, tt))
after_call-IsAllowed (verify email otp) signed_up (rejected x) s = tt
after_call-IsAllowed (google credential) signed_up (resolved u) s = (refl, (tt, tt))
after_call-IsAllowed (google credential) signed_up (rejected x) s = tt

abbrev Picked : Option (Pending × List Pending) → Type 0
Picked none = Unit
Picked (some (p, rest)) = IsPending p × All IsPending rest

put_back-Picked :
    (q : Pending) (o : Option (Pending × List Pending))
    → IsPending q
    → Picked o
    → Picked (put_back q o)
put_back-Picked q none h k = tt
put_back-Picked q (some (p, rest)) h (kp, kr) = (kp, (h, kr))

pick-Picked : (n : ℕ) (ps : List Pending) → All IsPending ps → Picked (pick n ps)
unfolding pick
pick-Picked n [] h = tt
pick-Picked zero (p ∷ ps) (h, k) = (h, k)
pick-Picked (suc n) (p ∷ ps) (h, k) = put_back-Picked p (pick n ps) h (pick-Picked n ps k)

answer-Fine :
    (o : Option (Pending × List Pending)) (signed_up : Outcome Verification)
    (entered : Outcome (Unit {0})) (l : Live)
    → Inv l
    → Picked o
    → Fine (answer o signed_up entered l)
unfolding answer
answer-Fine none signed_up entered l i h = (i, tt)
answer-Fine (some (p, rest)) signed_up entered l i (hp, hr) =
    let (page, idle) = after_call-PageInv p.call signed_up entered l.page i.page in
    (
      record { page = page; busy = λ h. absurd (no (sym idle ∙ h)); justified = hr },
      after_call-IsAllowed p.call signed_up entered l.page,
    )
  where
    no : false ≡ true → ⊥
    no h = cc

edit-Fine :
    (shown : Bool) (t : Signup) (l : Live)
    → Inv l
    → (shown ≡ true → PageInv t)
    → t.loading ≡ l.page.loading
    → Fine (edit shown t l)
edit-Fine true t l i page same =
    if_split Fine (not l.page.loading)
      (λ e. (
        record { page = page refl; busy = λ h. i.busy (sym same ∙ h); justified = i.justified },
        tt,
      ))
      (λ e. (i, tt))
edit-Fine false t l i page same = (i, tt)

type_otp-PageInv :
    (value : Str) (s : Signup) → PageInv s → s.verification_sent ≡ true → PageInv (type_otp value s)
unfolding type_otp
type_otp-PageInv value s i sent = record {
  otp_digits = otp_input-all value;
  otp_short = otp_input-le value;
  sent_expires = i.sent_expires;
  unsent_clear = λ unsent. cc;
}

step-Fine : (l : Live) (e : Event) → Inv l → Fine (step l e)
unfolding step change_email type_email type_password type_otp
step-Fine l (typed_email value) i =
    edit-Fine (not l.page.verification_sent) (type_email value l.page) l i
      (λ e. let p = i.page in ground arith) refl
step-Fine l (typed_password value) i =
    edit-Fine (not l.page.verification_sent) (type_password value l.page) l i
      (λ e. let p = i.page in ground arith) refl
step-Fine l (typed_otp value) i =
    edit-Fine l.page.verification_sent (type_otp value l.page) l i
      (λ e. type_otp-PageInv value l.page i.page e) refl
step-Fine l submitted i =
    if_split Fine l.page.loading (λ e. (i, tt))
      (λ e. start-Fine l (submit l.page) i (submit-IsStart l.page i.page))
step-Fine l resent i =
    if_split Fine (l.page.verification_sent && not l.page.loading)
      (λ e. start-Fine l (request_signup_otp l.page) i (request-IsStart l.page i.page))
      (λ e. (i, tt))
step-Fine l changed_email i =
    edit-Fine l.page.verification_sent (change_email l.page) l i
      (λ e. let p = i.page in ground arith) refl
step-Fine l (google_credential credential) i =
    start-Fine l (continue_with_google credential l.page) i
      (google-IsStart credential l.page i.page)
step-Fine l (google_failed message) i =
    (record { page = let p = i.page in ground arith; busy = i.busy; justified = i.justified }, tt)
step-Fine l (answered n signed_up entered) i =
    answer-Fine (pick n l.pending) signed_up entered l i (pick-Picked n l.pending i.justified)

opened-Inv : Inv opened
unfolding opened
opened-Inv = record { page = ground arith; busy = λ h. cc; justified = tt }

run_from : (l : Live) (es : List Event) → Inv l → Fine (run l es)
unfolding run
run_from l [] i = (i, tt)
run_from l (e ∷ es) i =
    let (now, allowed) = step-Fine l e i in
    let (inv, later) = run_from (step l e).0 es now in
    (inv, All-append IsAllowed (step l e).1 (run (step l e).0 es).1 allowed later)

-- After any events since the page was opened, in any order of the answers: the code field holds at
-- most six digits; a page that asks for a code has its time of expiry, and one that does not has
-- neither a code nor a time; a page that is loading waits for a call, so that it is never left
-- loading. And whatever was typed, each call was a sign-up with an e-mail address and at least
-- eight units of password, a code of six digits or a Google credential, and only the dashboard was
-- opened.
pub run-Inv : (es : List Event) → Inv (run opened es).0 × All IsAllowed (run opened es).1
run-Inv es = run_from opened es opened-Inv

abbrev pub pushes : List Effect → Bool
pushes [] = false
pushes (push path ∷ es) = true
pushes (send c ∷ es) = pushes es
pushes (refresh ∷ es) = pushes es

-- A call that lets a user in: of a code of six digits, from a state in which one had been sent and
-- with the code of its field, or of a Google credential.
abbrev pub Enters : Call → Signup → Type 0
Enters (signup email password) s = ⊥
Enters (verify email otp) s = IsJustified (verify email otp) s
Enters (google credential) s = Unit

-- The events that let a user in: the acceptance of such a call.
abbrev pub Admits : Live → Event → Type 0
Admits l (answered n signed_up (resolved _)) =
    (p : Pending) × (rest : List Pending) × (pick n l.pending ≡ some (p, rest))
    × Enters p.call p.origin
Admits l _ = ⊥

nothing : false ≡ true → ⊥
nothing h = cc

abbrev NoPush : Live × List Effect → Type 0
NoPush r = pushes r.1 ≡ true → ⊥

start-NoPush : (l : Live) (r : Started) → NoPush (start l r)
unfolding start
start-NoPush l (t, none) h = nothing h
start-NoPush l (t, some c) h = nothing h

edit-NoPush : (shown : Bool) (t : Signup) (l : Live) → NoPush (edit shown t l)
edit-NoPush shown t l = if_split NoPush (shown && not l.page.loading) (λ _. nothing) (λ _. nothing)

after_call-refused :
    (c : Call) (signed_up : Outcome Verification) (x : Failure) (s : Signup)
    → pushes (after_call c signed_up (rejected x) s).1 ≡ true
    → ⊥
unfolding after_call after_entry
after_call-refused (signup email password) signed_up x s h = nothing h
after_call-refused (verify email otp) signed_up x s h = nothing h
after_call-refused (google credential) signed_up x s h = nothing h

after_call-Enters :
    (p : Pending) (signed_up : Outcome Verification) (u : Unit {0}) (s : Signup)
    → IsPending p
    → pushes (after_call p.call signed_up (resolved u) s).1 ≡ true
    → Enters p.call p.origin
unfolding after_call
after_call-Enters p signed_up u s = go p.call
  where
    go :
        (c : Call)
        → IsJustified c p.origin
        → pushes (after_call c signed_up (resolved u) s).1 ≡ true
        → Enters c p.origin
    go (signup email password) j h = nothing h
    go (verify email otp) j h = j
    go (google credential) j h = tt

answer-Admits :
    (n : ℕ) (signed_up : Outcome Verification) (entered : Outcome (Unit {0})) (l : Live)
    (o : Option (Pending × List Pending))
    → pick n l.pending ≡ o
    → Picked o
    → pushes (answer o signed_up entered l).1 ≡ true
    → Admits l (answered n signed_up entered)
unfolding answer
answer-Admits n signed_up entered l none e k h = absurd (nothing h)
answer-Admits n signed_up (resolved u) l (some (p, rest)) e (kp, kr) h =
    (p, rest, e, after_call-Enters p signed_up u l.page kp h)
answer-Admits n signed_up (rejected x) l (some (p, rest)) e k h =
    absurd (after_call-refused p.call signed_up x l.page h)

-- When, after any events since the page was opened, an event opens the dashboard, it is the
-- acceptance of a call that waits: of a Google credential, or of a code of six digits that was sent
-- from the code field of a page that asked for one.
pub step-Admits :
    (es : List Event) (e : Event)
    → pushes (step (run opened es).0 e).1 ≡ true
    → Admits (run opened es).0 e
unfolding step
step-Admits es = go (run opened es).0 (run-Inv es).0
  where
    go : (l : Live) → Inv l → (e : Event) → pushes (step l e).1 ≡ true → Admits l e
    go l i (typed_email value) h = edit-NoPush _ (type_email value l.page) l h
    go l i (typed_password value) h = edit-NoPush _ (type_password value l.page) l h
    go l i (typed_otp value) h = edit-NoPush _ (type_otp value l.page) l h
    go l i submitted h =
        if_split NoPush l.page.loading (λ _. nothing) (λ _. start-NoPush l (submit l.page)) h
    go l i resent h =
        if_split NoPush (l.page.verification_sent && not l.page.loading)
          (λ _. start-NoPush l (request_signup_otp l.page)) (λ _. nothing) h
    go l i changed_email h = edit-NoPush _ (change_email l.page) l h
    go l i (google_credential credential) h =
        start-NoPush l (continue_with_google credential l.page) h
    go l i (google_failed message) h = nothing h
    go l i (answered n signed_up entered) h =
        answer-Admits n signed_up entered l (pick n l.pending) refl
          (pick-Picked n l.pending i.justified) h

-- ===== src/Settings/Laws.antt =====
-- The settings page: when a password is changed, and a logout that fails.
use slai.Base.{
  ◌≤◌, ◌≡◌, ◌≢◌, ◌↔◌, refl, Bool, true, false, List, [], ◌∷◌, ◌++◌, All, All-append, Mem, here,
  length, arith, if_split,
}
use slai.Api.Errors.{Failure, Outcome, resolved, rejected}
use slai.Auth.{validate_password_change, is_accepted}
use slai.Auth.Laws.{validate_password_change_iff}
use slai.Settings.{
  Effect, change_password, logout_session, Card, submit, Page, load, loaded, start_logout,
  after_logout, Event, opened, retried, logout_clicked, me_answered, logout_answered, step,
}

module _ (A : Type 0) where
  unfoldable pub run : Page → List (Event A) → Page × List Effect
  unfolding step
  run s [] = (s, [])
  run s (e ∷ es) = let (t, effects) = step A s e in let (u, more) = run t es in (u, effects ++ more)

  -- No logout is asked for.
  abbrev pub IsNoLogout : Effect → Type 0
  IsNoLogout logout_session = ⊥
  IsNoLogout _ = Unit

  step-logging_out :
      (s : Page) (e : Event A)
      → s.logging_out ≡ true
      → ((step A s e).0.logging_out ≡ true) × All IsNoLogout (step A s e).1
  unfolding step load loaded start_logout after_logout
  step-logging_out s opened h = (h, (tt, tt))
  step-logging_out s retried h = (h, (tt, tt))
  step-logging_out s logout_clicked h =
      if_split (λ (r : Page × List Effect). (r.0.logging_out ≡ true) × All IsNoLogout r.1)
        s.logging_out (λ e. (h, tt)) (λ e. ground (arith, e, h))
  step-logging_out s (me_answered (resolved u)) h = (h, tt)
  step-logging_out s (me_answered (rejected e)) h = (h, tt)
  step-logging_out s (logout_answered (resolved a)) h = (h, (tt, (tt, tt)))
  step-logging_out s (logout_answered (rejected e)) h = (h, tt)

  run-logging_out :
      (s : Page) (es : List (Event A))
      → s.logging_out ≡ true
      → ((run s es).0.logging_out ≡ true) × All IsNoLogout (run s es).1
  unfolding run
  run-logging_out s [] h = (h, tt)
  run-logging_out s (e ∷ es) h =
      let (k, none_now) = step-logging_out s e h in
      let (l, none_later) = run-logging_out (step A s e).0 es k in
      (l, All-append IsNoLogout (step A s e).1 (run (step A s e).0 es).1 none_now none_later)

  -- When the call of a logout fails, the page's error stays what it was and the page goes nowhere,
  -- and whatever happens on it from there, the page stays in the state of signing out and asks for
  -- no other logout.
  pub failed_logout-Stuck :
      (s : Page) (e : Failure) (es : List (Event A))
      → s.logging_out ≡ false
      → let clicked = step A s logout_clicked in
        let failed = step A clicked.0 (logout_answered (rejected e)) in
        let later = run failed.0 es in
        (clicked.1 ≡ logout_session ∷ [])
        × (failed.1 ≡ [])
        × ((failed.0).error ≡ s.error)
        × ((later.0).logging_out ≡ true)
        × All IsNoLogout later.1
  unfolding step start_logout after_logout
  failed_logout-Stuck s e es idle =
      let (stays, none_asked) = run-logging_out (record s { logging_out = true }) es refl in
      rw idle (refl, refl, refl, stays, none_asked)

-- The form asks for a change of the password, and then with the two passwords in it, exactly if
-- there is a current password, the new one has at least eight code units and differs from it, and
-- the confirmation repeats the new one.
pub submit-change_iff :
    {A : Type 0} (answer : Outcome A) (s : Card)
    → Mem (change_password s.current_password s.new_password) (submit answer s).1 ↔ (
        (s.current_password ≢ [])
        × (8 ≤ length s.new_password)
        × (s.new_password ≢ s.current_password)
        × (s.confirm_password ≡ s.new_password))
unfolding submit
submit-change_iff answer s = (λ m. valid.0 (forth m), λ h. back (valid.1 h))
  where
    ok : Bool
    ok = is_accepted (validate_password_change s.current_password s.new_password s.confirm_password)

    valid : (ok ≡ true) ↔ (
        (s.current_password ≢ [])
        × (8 ≤ length s.new_password)
        × (s.new_password ≢ s.current_password)
        × (s.confirm_password ≡ s.new_password))
    valid = validate_password_change_iff s.current_password s.new_password s.confirm_password

    forth : Mem (change_password s.current_password s.new_password) (submit answer s).1 → ok ≡ true
    forth =
        if_split
          (λ (r : Card × List Effect).
            Mem (change_password s.current_password s.new_password) r.1 → ok ≡ true)
          ok (λ e m. e) (λ e m. elim m [ ])

    back : ok ≡ true → Mem (change_password s.current_password s.new_password) (submit answer s).1
    back e = rw e here

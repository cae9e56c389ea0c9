-- ===== src/Shell/Laws.antt =====
-- Whose pages the customer's shell shows.
use slai.Base.{
  ℕ, ◌==◌, ◌≡◌, ◌&&◌, List, [], ◌∷◌, Option, none, some, String, subst, ap, sym, ◌⊎◌, inl, inr, Mem,
  here, there, if_split, arith,
}
use slai.Text.{Str}
use slai.Api.Errors.{Outcome, resolved, rejected, is_unauthorized}
use slai.Api.User.{User}
use slai.Shell.{
  Shell, Effect, initial, start_effect, after_me, Event, path_changed, unmounted, me_answered, step,
  run, View, view, content, of_error,
}

-- An answer with this user.
abbrev pub IsSignIn : (encode : Str → Str) → User → List (Event encode) → Type 0
IsSignIn encode u events = (n : ℕ) × (path : Str) × Mem (me_answered n path (resolved u)) events

later :
    (encode : Str → Str) (u : User) (e : Event encode) (es : List (Event encode))
    → IsSignIn encode u es
    → IsSignIn encode u (e ∷ es)
later encode u e es (n, path, m) = (n, path, there m)

-- The user of a shell before an event, or of the event.
abbrev Stays : (encode : Str → Str) → Shell → Event encode → Shell × List Effect → Type 0
Stays encode s e r =
    (u : User)
    → (r.0).user ≡ some u
    → (s.user ≡ some u) ⊎ ((n : ℕ) × (path : Str) × (me_answered n path (resolved u) ≡ e))

abbrev get_or : User → Option User → User
get_or v none = v
get_or v (some u) = u

abbrev user_in : View → Option User
user_in (content u) = some u
user_in _ = none

of_error-content :
    (e : Option String) (o : Option User) (u : User) → of_error e o ≡ content u → o ≡ some u
of_error-content (some m) o u h = ground (arith, ap user_in h)
of_error-content none none u h = ground (arith, ap user_in h)
of_error-content none (some v) u h = ap user_in h

view-user : (s : Shell) (u : User) → view s ≡ content u → s.user ≡ some u
unfolding view
view-user s u =
    if_split (λ (v : View). v ≡ content u → s.user ≡ some u) s.loading
      (λ e h. ground (arith, ap user_in h)) (λ e h. of_error-content s.error s.user u h)

module _ (encode : Str → Str) where
  after-Stays :
      (s : Shell) (n : ℕ) (path : Str) (o : Outcome User)
      → Stays encode s (me_answered n path o) (after_me encode path o s)
  unfolding after_me
  after-Stays s n path (resolved v) =
      λ u h. inr (n, path, ap (λ o. me_answered n path (resolved (get_or v o))) (sym h))
  after-Stays s n path (rejected e) =
      if_split (Stays encode s (me_answered n path (rejected e))) (is_unauthorized e)
        (λ q u h. inl h) (λ q u h. inl h)

  step-Stays : (s : Shell) (e : Event encode) → Stays encode s e (step encode s e)
  unfolding step start_effect
  step-Stays s (path_changed path) = λ u h. inl h
  step-Stays s unmounted = λ u h. inl h
  step-Stays s (me_answered n path o) =
      if_split (Stays encode s (me_answered n path o)) (s.mounted && n == s.last)
        (λ q. after-Stays s n path o) (λ q u h. inl h)

  run-user :
      (s : Shell) (es : List (Event encode)) (u : User)
      → (run encode s es).user ≡ some u
      → (s.user ≡ some u) ⊎ IsSignIn encode u es
  unfolding run
  run-user s [] u h = inl h
  run-user s (e ∷ es) u h = elim (run-user (step encode s e).0 es u h) [
    | inl q ↦ elim (step-Stays s e u q) [
      | inl k ↦ inl k
      | inr m ↦
          inr (m.0, m.1, subst (λ x. Mem (me_answered m.0 m.1 (resolved u)) (x ∷ es)) m.2 here)
    ]
    | inr m ↦ inr (later encode u e es m)
  ]

  -- The shell shows its pages for a user only if an answer to a session request had that user.
  view-content :
      (es : List (Event encode)) (u : User)
      → view (run encode initial es) ≡ content u
      → IsSignIn encode u es
  unfolding initial
  view-content es u h = elim (run-user initial es u (view-user (run encode initial es) u h)) [
    | inl q ↦ ground (arith, q)
    | inr m ↦ m
  ]

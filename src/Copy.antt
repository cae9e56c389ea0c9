-- ===== src/Copy.antt =====
-- `CopyButton`, apps/web/src/components/CopyButton.tsx: a success is shown for 1.8 seconds. A
-- failure of the clipboard is not caught. `timers` counts those that were set and have not fired.
use slai.Base.{
  ℕ, zero, suc, ◌+◌, ◌<◌, ◌≡◌, refl, Bool, true, false, List, [], ◌∷◌, String, if◌then◌else◌, arith,
}
use slai.Api.Errors.{Outcome, resolved, rejected}

pub record Copy : Type 0 where
  pub copied : Bool
  pub timers : ℕ

unfoldable pub initial : Copy
initial = record { copied = false; timers = 0 }

-- `copy`, from the answer of the clipboard.
unfoldable pub after_write : Outcome (Unit {0}) → Copy → Copy
after_write (resolved _) c = record { copied = true; timers = c.timers + 1 }
after_write (rejected e) c = c

fired : ℕ → Copy → Copy
fired zero c = c
fired (suc n) c = record { copied = false; timers = n }

-- A timer that was set fires once.
unfoldable pub timer_fired : Copy → Copy
unfolding fired
timer_fired c = fired c.timers c

unfoldable pub label_of : (label : String) → Copy → String
label_of label c = if c.copied then "Copied" else label

pub data Event : Type 0 where
  written : Outcome (Unit {0}) → Event
  timer : Event

unfoldable pub run : List Event → Copy → Copy
unfolding after_write timer_fired
run [] c = c
run (written answer ∷ es) c = run es (after_write answer c)
run (timer ∷ es) c = run es (timer_fired c)

IsWaiting : Copy → Type 0
IsWaiting c = c.copied ≡ true → 0 < c.timers

fired-IsWaiting : (n : ℕ) (c : Copy) → c.timers ≡ n → IsWaiting c → IsWaiting (fired n c)
unfolding fired IsWaiting
fired-IsWaiting zero c e h = h
fired-IsWaiting (suc n) c e h = λ k. absurd (ground (arith, k))

run-IsWaiting : (es : List Event) (c : Copy) → IsWaiting c → IsWaiting (run es c)
unfolding run after_write timer_fired IsWaiting
run-IsWaiting [] c h = h
run-IsWaiting (written (resolved _) ∷ es) c h =
    run-IsWaiting es (record { copied = true; timers = c.timers + 1 }) (λ k. omega arith)
run-IsWaiting (written (rejected e) ∷ es) c h = run-IsWaiting es c h
run-IsWaiting (timer ∷ es) c h =
    run-IsWaiting es (fired c.timers c) (fired-IsWaiting c.timers c refl h)

-- The button says that it has copied only while a timer runs that will take this back.
pub copied-IsWaiting :
    (es : List Event) → (run es initial).copied ≡ true → 0 < (run es initial).timers
unfolding initial IsWaiting
copied-IsWaiting es = run-IsWaiting es initial (λ k. absurd (ground (arith, k)))

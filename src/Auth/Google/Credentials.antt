-- ===== src/Auth/Google/Credentials.antt =====
-- Which credentials a Google button passes to its page.
use slai.Base.{
  ◌≡◌, refl, Bool, true, false, ℕ, not, ◌&&◌, ◌||◌, List, [], ◌∷◌, Option, none, some, arith, ◌⊎◌,
  if_split, ap, sym, inl, inr, if◌then◌else◌,
}
use slai.Text.{Str, truthy}
use slai.Auth.Google.{
  Google, Tag, absent, pending, settled, Drawn, configured, trimmed_id, Call, credential_call,
  error_call, draw, load_script, run_effect, Config, after_config, script_loaded, script_failed,
  credential_answered, show_configuration_error, Event, config_answered, script_load,
  script_failure, credential_event, label_changed, clicked, unmounted, click, step, run, open_in,
}

abbrev drawn_id : Option Drawn → Option Str
drawn_id none = none
drawn_id (some d) = some d.client_id

-- `id` is the trimmed client id.
record IsFor (g : Google) : Type 0 where
  early : g.asked ≡ true → g.client_id ≡ none
  waiting : g.waits ≡ true → truthy (trimmed_id g.client_id) ≡ true
  shown :
      (g.drawn ≡ none)
      ⊎ ((drawn_id g.drawn ≡ some (trimmed_id g.client_id))
          × (truthy (trimmed_id g.client_id) ≡ true))

draw-IsFor : (g : Google) → truthy (trimmed_id g.client_id) ≡ true → IsFor g → IsFor (draw g)
unfolding draw
draw-IsFor g h i =
    if_split IsFor (g.script_error || not g.identity)
      (λ e. record { early = i.early; waiting = λ k. absurd (ground (arith, k)); shown = i.shown })
      (λ e. record {
        early = i.early;
        waiting = λ k. absurd (ground (arith, k));
        shown = inr (refl, h);
      })

load_script-IsFor :
    (g : Google) → truthy (trimmed_id g.client_id) ≡ true → IsFor g → IsFor (load_script g)
unfolding load_script
load_script-IsFor g h i =
    if_split IsFor g.identity (λ e. draw-IsFor g h i)
      (λ e. record { early = i.early; waiting = λ k. h; shown = i.shown })

run_effect-IsFor : (g : Google) → IsFor g → IsFor (run_effect g)
unfolding run_effect configured
run_effect-IsFor g i =
    if_split IsFor (not (truthy (trimmed_id g.client_id)))
      (λ e. record { early = i.early; waiting = λ k. absurd (ground (arith, k)); shown = i.shown })
      (λ e. load_script-IsFor g (ground (arith, e)) i)

bare : (g : Google) → IsFor g → g.asked ≡ true → g.drawn ≡ none
bare g i a = ground (arith, i.early a, i.shown)

idle : (g : Google) → IsFor g → g.asked ≡ true → g.waits ≡ true → ⊥
idle g i a w = ground (arith, i.early a, i.waiting w)

after_config-IsFor : (c : Config) (g : Google) → g.asked ≡ true → IsFor g → IsFor (after_config c g)
unfolding after_config
after_config-IsFor none g a i = record {
  early = λ k. absurd (ground (arith, k));
  waiting = λ k. absurd (idle g i a k);
  shown = inl (bare g i a);
}
after_config-IsFor (some none) g a i =
    run_effect-IsFor (record g { client_id = some []; asked = false })
      (record {
        early = λ k. absurd (ground (arith, k));
        waiting = λ k. absurd (idle g i a k);
        shown = inl (bare g i a);
      })
after_config-IsFor (some (some id)) g a i =
    run_effect-IsFor (record g { client_id = some id; asked = false })
      (record {
        early = λ k. absurd (ground (arith, k));
        waiting = λ k. absurd (idle g i a k);
        shown = inl (bare g i a);
      })

script_loaded-IsFor : (b : Bool) (g : Google) → IsFor g → IsFor (script_loaded b g)
unfolding script_loaded
script_loaded-IsFor b g i =
    elim g.tag
      as (λ t. IsFor (elim t [
        | pending ↦
            let g' = record g { tag = settled; identity = b } in if g.waits then draw g' else g'
        | absent ↦ g
        | settled ↦ g
      ])) [
        | absent ↦ i
        | pending ↦
            if_split IsFor g.waits
              (λ e.
                draw-IsFor (record g { tag = settled; identity = b }) (i.waiting e)
                  (record { early = i.early; waiting = i.waiting; shown = i.shown }))
              (λ e. record { early = i.early; waiting = i.waiting; shown = i.shown })
        | settled ↦ i
      ]

script_failed-IsFor : (g : Google) → IsFor g → IsFor (script_failed g)
unfolding script_failed
script_failed-IsFor g i =
    elim g.tag
      as (λ t. IsFor (elim t [
        | pending ↦ record g {
          tag = settled;
          script_error = g.waits || g.script_error;
          waits = false;
        }
        | absent ↦ g
        | settled ↦ g
      ])) [
        | absent ↦ i
        | pending ↦ record {
          early = i.early;
          waiting = λ k. absurd (ground (arith, k));
          shown = i.shown;
        }
        | settled ↦ i
      ]

step-IsFor : (g : Google) (e : Event) → IsFor g → IsFor (step g e).0
unfolding step
step-IsFor g (config_answered config) i =
    if_split (λ (r : Google × List Call). IsFor r.0) (g.mounted && g.asked)
      (λ e. after_config-IsFor config g (ground (arith, e)) i) (λ e. i)
step-IsFor g (script_load identity) i = script_loaded-IsFor identity g i
step-IsFor g script_failure i = script_failed-IsFor g i
step-IsFor g (credential_event credential) i = i
step-IsFor g (label_changed label) i =
    if_split (λ (r : Google × List Call). IsFor r.0) g.mounted
      (λ e.
        run_effect-IsFor (record g { label = label })
          (record { early = i.early; waiting = i.waiting; shown = i.shown }))
      (λ e. i)
step-IsFor g clicked i = i
step-IsFor g unmounted i = record {
  early = i.early;
  waiting = λ k. absurd (ground (arith, k));
  shown = i.shown;
}

run-IsFor : (es : List Event) (g : Google) → IsFor g → IsFor (run g es)
unfolding run
run-IsFor [] g i = i
run-IsFor (e ∷ es) g i = run-IsFor es (step g e).0 (step-IsFor g e i)

open_in-IsFor :
    (tag : Tag) (identity : Bool) (label : Str) (reports : Bool)
    → IsFor (open_in tag identity label reports)
unfolding open_in
open_in-IsFor tag identity label reports = record {
  early = λ k. refl;
  waiting = λ k. absurd (ground (arith, k));
  shown = inl refl;
}

-- The client that a button was drawn for, which is configured, and the credential of the event.
abbrev pub IsPassedOn : Google → Event → Str → Type 0
IsPassedOn g e c =
    (e ≡ credential_event (some c))
    × (drawn_id g.drawn ≡ some (trimmed_id g.client_id))
    × (truthy (trimmed_id g.client_id) ≡ true)
    × (truthy c ≡ true)

-- The first credential among the calls.
abbrev pub given_credential : List Call → Option Str
given_credential [] = none
given_credential (credential_call c ∷ calls) = some c
given_credential (error_call message ∷ calls) = given_credential calls

same_credential :
    (g : Google) (d : ℕ) (s c : Str)
    → given_credential (credential_answered (some (d ∷ s)) g) ≡ some c
    → (d ∷ s) ≡ c
unfolding credential_answered
same_credential g d s c h = ground arith

undrawn :
    (g : Google) (d : ℕ) (s c : Str)
    → given_credential (credential_answered (some (d ∷ s)) g) ≡ some c
    → g.drawn ≡ none
    → ⊥
unfolding credential_answered
undrawn g d s c h e = ground arith

passed :
    (g : Google) (c : Str) (answer : Option Str)
    → IsFor g
    → given_credential (credential_answered answer g) ≡ some c
    → IsPassedOn g (credential_event answer) c
unfolding credential_answered
passed g c none i h = absurd (ground (arith, h))
passed g c (some []) i h = absurd (ground (arith, h))
passed g c (some (d ∷ s)) i h =
    let e = same_credential g d s c h in
    elim i.shown [
      | inl bare ↦ absurd (undrawn g d s c h bare)
      | inr (drawn, known) ↦
          (ap (λ v. credential_event (some v)) e, drawn, known, ap truthy (sym e))
    ]

-- A click gives no credential.
quiet_click : (g : Google) → given_credential (click g) ≡ none
unfolding click show_configuration_error
quiet_click g = ground arith

step_passed :
    (g : Google) (e : Event) (c : Str)
    → IsFor g
    → given_credential (step g e).1 ≡ some c
    → IsPassedOn g e c
unfolding step
step_passed g (config_answered config) c i h = absurd (ground (arith, h))
step_passed g (script_load identity) c i h = absurd (ground (arith, h))
step_passed g script_failure c i h = absurd (ground (arith, h))
step_passed g (credential_event credential) c i h = passed g c credential i h
step_passed g (label_changed label) c i h = absurd (ground (arith, h))
step_passed g clicked c i h = absurd (ground (arith, h, quiet_click g))
step_passed g unmounted c i h = absurd (ground (arith, h))

-- The page gets a credential only from the callback of a button that Google has drawn for
-- the configured client, whose trimmed id is not empty, and it is the credential of that
-- callback, which is not empty.
pub step-credential :
    (tag : Tag) (identity : Bool) (label : Str) (reports : Bool) (es : List Event) (e : Event)
    (c : Str)
    → given_credential (step (run (open_in tag identity label reports) es) e).1 ≡ some c
    → IsPassedOn (run (open_in tag identity label reports) es) e c
step-credential tag identity label reports es e c =
    step_passed (run (open_in tag identity label reports) es) e c
      (run-IsFor es (open_in tag identity label reports) (open_in-IsFor tag identity label reports))

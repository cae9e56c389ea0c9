-- ===== src/Auth/Google/Laws.antt =====
-- What a Google button passes on, what its own button says, and a script that has already failed.
use slai.Base.{◌≡◌, Bool, true, false, List, [], ◌∷◌, none, some, arith, if_split, if◌then◌else◌}
use slai.Text.{Str, trim, truthy}
use slai.Auth.Google.{
  Google, settled, configured, Call, error_call, load_script, run_effect, after_config,
  script_loaded, script_failed, show_configuration_error, google_place, own_button, view, Event,
  config_answered, script_load, script_failure, credential_event, label_changed, clicked, unmounted,
  click, step, run, open_in,
}

-- A component that waits for events which have already come.
record IsStuck (id : Str) (g : Google) : Type 0 where
  client : g.client_id ≡ some id
  fine : g.script_error ≡ false
  told : g.asked ≡ false
  bare : g.drawn ≡ none
  over : g.tag ≡ settled
  missing : g.identity ≡ false

load_script-IsStuck : (id : Str) (g : Google) → IsStuck id g → IsStuck id (load_script g)
unfolding load_script
load_script-IsStuck id g i = ground arith

run_effect-IsStuck : (id : Str) (g : Google) → IsStuck id g → IsStuck id (run_effect g)
unfolding run_effect
run_effect-IsStuck id g i = ground (arith, load_script-IsStuck id g i)

step-IsStuck : (id : Str) (g : Google) (e : Event) → IsStuck id g → IsStuck id (step g e).0
unfolding step script_loaded script_failed
step-IsStuck id g (config_answered config) i = ground arith
step-IsStuck id g (script_load identity) i = ground arith
step-IsStuck id g script_failure i = ground arith
step-IsStuck id g (credential_event credential) i = i
step-IsStuck id g (label_changed label) i =
    if_split (λ (r : Google × List Call). IsStuck id r.0) g.mounted
      (λ e. run_effect-IsStuck id (record g { label = label }) (ground arith)) (λ e. i)
step-IsStuck id g clicked i = i
step-IsStuck id g unmounted i = ground arith

run-IsStuck : (id : Str) (es : List Event) (g : Google) → IsStuck id g → IsStuck id (run g es)
unfolding run
run-IsStuck id [] g i = i
run-IsStuck id (e ∷ es) g i = run-IsStuck id es (step g e).0 (step-IsStuck id g e i)

view-IsStuck :
    (id : Str) (g : Google) → truthy (trim id) ≡ true → IsStuck id g → view g ≡ google_place none
unfolding view configured
view-IsStuck id g h i = ground arith

-- In a document where Google's script has already failed, or loaded without its object, a component
-- that learns a client id shows an empty place: whatever happens then, it draws no button and
-- shows neither its own button nor an error.
pub settled_script-IsStuck :
    (label id : Str) (reports : Bool) (es : List Event)
    → truthy (trim id) ≡ true
    → view
        (run (step (open_in settled false label reports) (config_answered (some (some id)))).0 es)
      ≡ google_place none
unfolding step after_config run_effect load_script configured open_in
settled_script-IsStuck label id reports es h =
    view-IsStuck id
      (run (step (open_in settled false label reports) (config_answered (some (some id)))).0 es) h
      (run-IsStuck id es
        (step (open_in settled false label reports) (config_answered (some (some id)))).0
        (ground arith))

-- The component's own button, where it can be clicked and the page takes errors, always gives one:
-- that Google is not configured, or that it could not be loaded. It never says that
-- Google is still loading, since the button cannot be clicked then.
pub click-IsReported :
    (g : Google) (content title : Str)
    → g.reports ≡ true
    → view g ≡ own_button content false title
    → click g ≡ (
        if configured g
        then error_call "Unable to load Google sign-in." ∷ []
        else error_call "Google sign-in is not configured yet." ∷ [])
unfolding view click show_configuration_error
click-IsReported g content title r h = ground arith

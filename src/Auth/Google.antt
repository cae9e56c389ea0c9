-- ===== src/Auth/Google.antt =====
-- `GoogleAuthButton` and `loadGoogleIdentityScript`, apps/web/src/components/AuthPage.tsx, with
-- the part of the document that they read: the script's tag and Google's object. Google's script
-- is not under this repository: that it loads, fails, and gives a credential are events here.
pub mod Laws
pub mod Credentials
use slai.Base.{
  Bool, true, false, not, ◌&&◌, ◌||◌, List, [], ◌∷◌, Option, none, some, String, codes,
  if◌then◌else◌,
}
use slai.Text.{Str, trim, truthy, includes}
use slai.Redact.{fold_case}

-- The tag of Google's script: not there, there before its load or error event, and after it.
pub data Tag : Type 0 where
  absent pending settled : Tag

pub data ButtonText : Type 0 where
  signup_with continue_with : ButtonText

-- A button that Google has drawn: for which client, and its text.
pub record Drawn : Type 0 where
  pub client_id : Str
  pub button_text : ButtonText

-- `asked` while the configuration has no answer; `waits` while the effect that is not cancelled
-- awaits the script. `tag` and `identity`, whether `window.google.accounts.id` is there, belong to
-- the document. `reports` tells whether the page gave `onError`.
pub record Google : Type 0 where
  pub label : Str
  pub reports : Bool
  pub client_id : Option Str
  pub script_error : Bool
  pub asked : Bool
  pub waits : Bool
  pub drawn : Option Drawn
  pub mounted : Bool
  pub tag : Tag
  pub identity : Bool

-- `(googleClientId ?? "").trim()`
abbrev pub trimmed_id : Option Str → Str
trimmed_id none = []
trimmed_id (some id) = trim id

unfoldable pub configured : Google → Bool
unfolding trim
configured g = truthy (trimmed_id g.client_id)

-- What the component calls of its page.
pub data Call : Type 0 where
  credential_call : (credential : Str) → Call
  error_call : (message : String) → Call

-- `onError?.(message)`
abbrev pub report : Google → String → List Call
report g message = if g.reports then error_call message ∷ [] else []

unfoldable pub text_for : (label : Str) → ButtonText
unfolding includes fold_case
text_for label = if includes (codes "sign up") (fold_case label) then signup_with else continue_with

-- `renderGoogleButton` after the script, in an effect that is not cancelled. The place of the
-- button is there unless an error has replaced it.
unfoldable pub draw : Google → Google
unfolding text_for trim
draw g = if g.script_error || not g.identity then record g { waits = false } else record g {
  waits = false;
  drawn = some (record { client_id = trimmed_id g.client_id; button_text = text_for g.label });
}

-- `loadGoogleIdentityScript`: at once if Google's object is there; else it waits for the events of
-- the tag, which it adds if there is none.
unfoldable pub load_script : Google → Google
unfolding draw
load_script g =
    if g.identity
    then draw g
    else record g { waits = true; tag = elim g.tag [ absent ↦ pending | tag ↦ tag ] }

-- The second effect.
unfoldable pub run_effect : Google → Google
unfolding configured load_script
run_effect g = if not (configured g) then record g { waits = false } else load_script g

-- The answer of `/api/public-config`: none when the request fails, else the text of
-- `googleClientId`, if the response is ok and has one.
abbrev pub Config : Type 0
Config = Option (Option Str)

abbrev id_or_empty : Option Str → Str
id_or_empty none = []
id_or_empty (some id) = id

unfoldable pub after_config : Config → Google → Google
unfolding run_effect
after_config none g = record g { client_id = some []; script_error = true; asked = false }
after_config (some id) g =
    run_effect (record g { client_id = some (id_or_empty id); asked = false })

-- The tag's events come once.
unfoldable pub script_loaded : (identity : Bool) → Google → Google
unfolding draw
script_loaded identity g = elim g.tag [
  | pending ↦
      let g' = record g { tag = settled; identity = identity } in if g.waits then draw g' else g'
  | absent ↦ g
  | settled ↦ g
]

unfoldable pub script_failed : Google → Google
script_failed g = elim g.tag [
  | pending ↦ record g { tag = settled; script_error = g.waits || g.script_error; waits = false }
  | absent ↦ g
  | settled ↦ g
]

abbrev credential_given : Google → Option Str → List Call
credential_given g none = report g "Google did not return a credential."
credential_given g (some []) = report g "Google did not return a credential."
credential_given g (some (c ∷ s)) = credential_call (c ∷ s) ∷ []

-- The callback of Google's button.
unfoldable pub credential_answered : Option Str → Google → List Call
credential_answered answer g = elim g.drawn [ none ↦ [] | some _ ↦ credential_given g answer ]

unfoldable pub show_configuration_error : Google → List Call
unfolding configured
show_configuration_error g = elim g.client_id [
  | none ↦ report g "Google sign-in is still loading."
  | some _ ↦
      if not (configured g)
      then report g "Google sign-in is not configured yet."
      else if g.script_error
      then report g "Unable to load Google sign-in."
      else []
]

-- What the component shows: the place of Google's button, or its own button.
pub data View : Type 0 where
  google_place : Option Drawn → View
  own_button : (content : Str) (disabled : Bool) (title : Str) → View

abbrev is_none {ℓ} : {A : Type ℓ} → Option A → Bool
is_none none = true
is_none (some _) = false

unfoldable pub view : Google → View
unfolding configured
view g =
    if configured g && not g.script_error
    then google_place g.drawn
    else own_button (if is_none g.client_id then codes "Loading Google..." else g.label)
        (is_none g.client_id || (not (configured g) && not g.reports))
        (if configured g then g.label else codes "Google sign-in is not configured")

pub data Event : Type 0 where
  config_answered : Config → Event
  script_load : (identity : Bool) → Event
  script_failure : Event
  credential_event : (credential : Option Str) → Event
  label_changed : (label : Str) → Event
  clicked : Event
  unmounted : Event

-- A click on the component's own button, while it can be used.
unfoldable pub click : Google → List Call
unfolding view show_configuration_error
click g = elim (view g) [
  | google_place _ ↦ []
  | own_button content disabled title ↦ if disabled then [] else show_configuration_error g
]

-- The script's events change the document whether or not the component is there; an effect that
-- has ended awaits nothing.
unfoldable pub step : Google → Event → Google × List Call
unfolding after_config script_loaded script_failed credential_answered run_effect click
step g (config_answered config) =
    if g.mounted && g.asked then (after_config config g, []) else (g, [])
step g (script_load identity) = (script_loaded identity g, [])
step g script_failure = (script_failed g, [])
step g (credential_event credential) = (g, credential_answered credential g)
step g (label_changed label) =
    if g.mounted then (run_effect (record g { label = label }), []) else (g, [])
step g clicked = (g, if g.mounted then click g else [])
step g unmounted = (record g { mounted = false; waits = false }, [])

unfoldable pub run : Google → List Event → Google
unfolding step
run g [] = g
run g (event ∷ events) = run (step g event).0 events

-- A component that is shown anew in a document.
unfoldable pub open_in : (tag : Tag) (identity : Bool) → (label : Str) (reports : Bool) → Google
open_in tag identity label reports = record {
  label = label;
  reports = reports;
  client_id = none;
  script_error = false;
  asked = true;
  waits = false;
  drawn = none;
  mounted = true;
  tag = tag;
  identity = identity;
}

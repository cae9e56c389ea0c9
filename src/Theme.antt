-- ===== src/Theme.antt =====
-- `ThemeToggle`, apps/web/src/components/ThemeToggle.tsx: the theme of the document, the browser's
-- storage, which may throw, and the buttons that show and change it. Several buttons may stand on
-- one page: AdminShell.tsx shows two beside each other.
pub mod Laws
use slai.Base.{
  Bool, true, false, ◌||◌, List, [], ◌∷◌, Option, none, some, String, str_eq, if◌then◌else◌,
}

pub data Theme : Type 0 where
  light dark : Theme

abbrev pub is_dark : Theme → Bool
is_dark light = false
is_dark dark = true

abbrev pub name_of : Theme → String
name_of light = "light"
name_of dark = "dark"

-- The storage's item, and whether the storage works or throws. `prefers_dark` is what the media
-- query of the system's preference says.
pub record Browser : Type 0 where
  pub stored : Option String
  pub works : Bool
  pub prefers_dark : Bool
  pub dark_class : Bool
  pub color_scheme : Theme

abbrev persisted : (persist : Bool) → Theme → Browser → Browser
persisted persist theme b =
    if persist then (if b.works then record b { stored = some (name_of theme) } else b) else b

unfoldable pub apply_theme : Theme → (persist : Bool) → Browser → Browser
apply_theme theme persist b =
    persisted persist theme (record b { dark_class = is_dark theme; color_scheme = theme })

abbrev pub preferred : Browser → Theme
preferred b = if b.prefers_dark then dark else light

abbrev pub stored_theme : Browser → Option String → Theme
stored_theme b none = preferred b
stored_theme b (some stored) =
    if str_eq stored "dark" then dark else if str_eq stored "light" then light else preferred b

-- In the browser, where there is a `window`.
unfoldable pub read_theme : Browser → Theme
read_theme b = if b.works then stored_theme b b.stored else preferred b

-- A button has a state of its own.
pub record Toggle : Type 0 where
  pub theme : Theme

unfoldable pub initial : Toggle
initial = record { theme = light }

-- The effect of a button that is shown first.
unfoldable pub mount : Browser → Toggle × Browser
unfolding read_theme apply_theme
mount b = (record { theme = read_theme b }, apply_theme (read_theme b) false b)

abbrev pub other : Theme → Theme
other dark = light
other light = dark

unfoldable pub toggle_theme : Toggle → Browser → Toggle × Browser
unfolding apply_theme
toggle_theme t b = (record { theme = other t.theme }, apply_theme (other t.theme) true b)

-- What the button shows: its label, whether it is pressed, and its text.
pub record View : Type 0 where
  pub label : String
  pub pressed : Bool
  pub content : String

unfoldable pub view : Toggle → View
view t = elim t.theme [
  | dark ↦ record { label = "Light mode"; pressed = true; content = "Light" }
  | light ↦ record { label = "Dark mode"; pressed = false; content = "Dark" }
]

-- Clicks of one button, one after another.
unfoldable pub clicks : List (Unit {0}) → Toggle × Browser → Toggle × Browser
unfolding toggle_theme
clicks [] (t, b) = (t, b)
clicks (_ ∷ cs) (t, b) = clicks cs (toggle_theme t b)

-- ===== src/Theme/Laws.antt =====
-- A chosen theme is found again; two buttons of one page may disagree.
use slai.Base.{◌≡◌, refl, true, some, arith, ◌≢◌, ◌∙◌, ap, List, [], ◌∷◌}
use slai.Theme.{
  Theme, light, dark, is_dark, Browser, apply_theme, read_theme, Toggle, mount, toggle_theme, view,
  other, clicks, name_of, stored_theme,
}

-- The document shows the theme of the button.
pub record Agrees (t : Toggle) (b : Browser) : Type 0 where
  pub class : b.dark_class ≡ is_dark t.theme
  pub scheme : b.color_scheme ≡ t.theme
  pub pressed : (view t).pressed ≡ b.dark_class

mount-Agrees : (b : Browser) → Agrees (mount b).0 (mount b).1
unfolding mount apply_theme view
mount-Agrees b = ground arith

toggle-Agrees : (t : Toggle) (b : Browser) → Agrees (toggle_theme t b).0 (toggle_theme t b).1
unfolding toggle_theme apply_theme view
toggle-Agrees t b = ground arith

clicks-Agrees :
    (cs : List (Unit {0})) (t : Toggle) (b : Browser)
    → Agrees t b
    → Agrees (clicks cs (t, b)).0 (clicks cs (t, b)).1
unfolding clicks
clicks-Agrees [] t b h = h
clicks-Agrees (_ ∷ cs) t b h =
    clicks-Agrees cs (toggle_theme t b).0 (toggle_theme t b).1 (toggle-Agrees t b)

toggle-works : (t : Toggle) (b : Browser) → (toggle_theme t b).1.works ≡ b.works
unfolding toggle_theme apply_theme
toggle-works t b = ground arith

stored_theme-name_of : (x : Theme) (b : Browser) → stored_theme b (some (name_of x)) ≡ x
stored_theme-name_of light b = refl
stored_theme-name_of dark b = refl

toggle-read :
    (t : Toggle) (b : Browser)
    → b.works ≡ true
    → read_theme (toggle_theme t b).1 ≡ (toggle_theme t b).0.theme
unfolding toggle_theme apply_theme read_theme
toggle-read t b h = rw h (stored_theme-name_of (other t.theme) b)

clicks-read :
    (cs : List (Unit {0})) (t : Toggle) (b : Browser)
    → b.works ≡ true
    → read_theme b ≡ t.theme
    → read_theme (clicks cs (t, b)).1 ≡ (clicks cs (t, b)).0.theme
unfolding clicks
clicks-read [] t b w h = h
clicks-read (_ ∷ cs) t b w h =
    clicks-read cs (toggle_theme t b).0 (toggle_theme t b).1 (toggle-works t b ∙ w)
      (toggle-read t b w)

mount-read : (b : Browser) → read_theme (mount b).1 ≡ (mount b).0.theme
unfolding mount apply_theme read_theme
mount-read b = ground arith

-- A button that is clicked any number of times always shows the theme of the document, and where
-- the storage works, a button that is shown later starts with the theme that was left.
pub clicks-mount :
    (cs : List (Unit {0})) (b : Browser)
    → b.works ≡ true
    → Agrees (clicks cs (mount b)).0 (clicks cs (mount b)).1
      × ((mount (clicks cs (mount b)).1).0 ≡ (clicks cs (mount b)).0)
unfolding mount
clicks-mount cs b w = (
  clicks-Agrees cs (mount b).0 (mount b).1 (mount-Agrees b),
  ap (λ (x : Theme). record { theme = x })
      (clicks-read cs (mount b).0 (mount b).1 w (mount-read b)),
)

differs : (t : Toggle) (b : Browser) → t.theme ≢ (toggle_theme t b).1.color_scheme
unfolding toggle_theme apply_theme
differs t b e = ground arith

again : (t : Toggle) (b : Browser) → (toggle_theme t (toggle_theme t b).1).1 ≡ (toggle_theme t b).1
unfolding toggle_theme apply_theme
again t b = ground arith

-- Of two buttons that show the document's theme, a click of the first leaves the second with the
-- theme before, and a click of the second then sets the theme that the document has already.
pub toggle-toggle :
    (t : Toggle) (b : Browser)
    → Agrees t b
    → (t.theme ≢ (toggle_theme t b).1.color_scheme)
      × ((toggle_theme t (toggle_theme t b).1).1 ≡ (toggle_theme t b).1)
toggle-toggle t b h = (differs t b, again t b)

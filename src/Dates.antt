-- ===== src/Dates.antt =====
-- Dates as the browser computes them: `new Date(value)` has a time unless it is invalid, times are
-- ordered, and `toISOString` throws for an invalid date.
use slai.Base.{Bool, false, [], ◌∷◌, Option, none, some}
use slai.Text.{Str}

pub record Calendar : Type 1 where
  pub Time : Type 0
  pub get_time : Str → Option Time
  pub later : Time → Time → Bool
  pub to_iso_string : Time → Str

-- What a call that may throw comes to.
pub data Checked {ℓ} (A : Type ℓ) : Type ℓ where
  returned : A → Checked A
  thrown : Checked A

module _ (c : Calendar) where
  abbrev pub iso_of_time : Option (c.Time) → Checked Str
  iso_of_time none = thrown
  iso_of_time (some t) = returned (c.to_iso_string t)

  -- `new Date(value).toISOString()`
  unfoldable pub to_iso : Str → Checked Str
  to_iso value = iso_of_time (c.get_time value)

  -- `value ? new Date(value).toISOString() : undefined`
  unfoldable pub iso_unless_empty : Str → Checked (Option Str)
  unfolding to_iso
  iso_unless_empty [] = returned none
  iso_unless_empty (x ∷ value) = optional (to_iso (x ∷ value))
    where
      optional : Checked Str → Checked (Option Str)
      optional (returned s) = returned (some s)
      optional thrown = thrown

  -- `new Date(a).getTime() > new Date(b).getTime()`, false when one of them is no date.
  abbrev pub is_later : Option (c.Time) → Option (c.Time) → Bool
  is_later (some a) (some b) = c.later a b
  is_later (some a) none = false
  is_later none b = false

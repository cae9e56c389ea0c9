-- ===== src/Text/Regex.antt =====
-- Regular expressions, for the literals that the forms test their fields with. The test runs by
-- derivatives; `Semantics` gives it its meaning as a language.
pub mod Semantics
use slai.Base.{ℕ, zero, suc, Bool, true, false, not, ◌&&◌, ◌||◌, List, [], ◌∷◌, if◌then◌else◌}
use slai.Text.{Str}

pub data Regex : Type 0 where
  empty nil : Regex
  unit : (ℕ → Bool) → Regex
  seq alt : Regex → Regex → Regex
  star : Regex → Regex

pub nullable : Regex → Bool
nullable empty = false
nullable nil = true
nullable (unit p) = false
nullable (seq r t) = nullable r && nullable t
nullable (alt r t) = nullable r || nullable t
nullable (star r) = true

pub derive : Regex → ℕ → Regex
derive empty c = empty
derive nil c = empty
derive (unit p) c = if p c then nil else empty
derive (seq r t) c = alt (seq (derive r c) t) (if nullable r then derive t c else empty)
derive (alt r t) c = alt (derive r c) (derive t c)
derive (star r) c = seq (derive r c) (star r)

-- `/^(?:r)$/.test(s)`
unfoldable pub test : Regex → Str → Bool
unfolding nullable derive
test r [] = nullable r
test r (c ∷ s) = test (derive r c) s

abbrev pub plus : Regex → Regex
plus r = seq r (star r)

abbrev pub opt : Regex → Regex
opt r = alt nil r

-- `r{n}`
abbrev pub times : ℕ → Regex → Regex
times zero r = nil
times (suc n) r = seq r (times n r)

-- At most `n` of `r`.
abbrev pub up_to : ℕ → Regex → Regex
up_to zero r = nil
up_to (suc n) r = opt (seq r (up_to n r))

-- `/r/.test(s)` with no anchors.
abbrev pub somewhere : Regex → Regex
somewhere r = seq (star (unit (λ _. true))) (seq r (star (unit (λ _. true))))

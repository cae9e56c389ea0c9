-- ===== src/Text/Trimmed.antt =====
-- `trimmed`: a text that is not blank, without white space around it.
use slai.Base.{◌≡◌, refl, Option, none, some, [], ◌∷◌, ap}
use slai.Text.{Str, trim, if_truthy, trimmed}
use slai.Text.Trim.{trim_idem}

again : (s : Str) → trim s ≡ s → trimmed (if_truthy s) ≡ if_truthy s
unfolding trimmed
again [] h = refl
again (c ∷ s) h = ap if_truthy h

pub trimmed_idem : (o : Option Str) → trimmed (trimmed o) ≡ trimmed o
unfolding trimmed
trimmed_idem none = refl
trimmed_idem (some s) = again (trim s) (trim_idem s)

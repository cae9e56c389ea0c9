-- ===== src/Text/Equality.antt =====
-- `===` on strings decides equality.
use mathlib.Core.Path.{ap₂}
use slai.Base.{◌≡◌, ◌↔◌, refl, true, [], ◌∷◌, ◌==◌, ==_iff, &&-true}
use slai.Text.{Str, equals}

equals→eq : (s t : Str) → equals s t ≡ true → s ≡ t
unfolding equals
equals→eq [] [] h = refl
equals→eq [] (b ∷ t) h = cc
equals→eq (a ∷ s) [] h = cc
equals→eq (a ∷ s) (b ∷ t) h =
    let (p, q) = &&-true (a == b) (equals s t) h in
    ap₂ (λ x y. x ∷ y) ((==_iff a b).0 p) (equals→eq s t q)

equals_refl : (s : Str) → equals s s ≡ true
unfolding equals
equals_refl [] = refl
equals_refl (c ∷ s) = rw ((==_iff c c).1 refl) (equals_refl s)

pub equals_iff : (s t : Str) → (equals s t ≡ true) ↔ (s ≡ t)
equals_iff s t = (equals→eq s t, λ e. rw e (equals_refl t))

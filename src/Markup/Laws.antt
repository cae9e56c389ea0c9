-- ===== src/Markup/Laws.antt =====
-- What a page has, part by part.
use slai.Base.{◌≡◌, refl, Bool, true, false, ◌&&◌, ◌||◌, List, [], ◌∷◌, ◌++◌, ap, ◌∙◌, arith}
use slai.Markup.{Node, Nodes, when, either, has, each}

either_or : (a b c : Bool) → (a || (b || c)) ≡ ((a || b) || c)
either_or a b c = ground arith

-- A list that has no such node for any of its rows.
module _ {E : Type 0} (p : Node E → Bool) where
  pub has-append : (xs ys : Nodes E) → has p (xs ++ ys) ≡ (has p xs || has p ys)
  unfolding has
  has-append [] ys = refl
  has-append (x ∷ xs) ys =
      ap (λ t. p x || t) (has-append xs ys) ∙ either_or (p x) (has p xs) (has p ys)

  pub has-when : (b : Bool) (xs : Nodes E) → has p (when b xs) ≡ (b && has p xs)
  unfolding has
  has-when true xs = refl
  has-when false xs = refl

  pub has-either :
      (b : Bool) (xs ys : Nodes E)
      → has p (either b xs ys) ≡ elim b [ true ↦ has p xs | false ↦ has p ys ]
  has-either true xs ys = refl
  has-either false xs ys = refl

  pub has-each-false {ℓ} :
      {A : Type ℓ} (nodes : A → Nodes E)
      → ((a : A) → has p (nodes a) ≡ false)
      → (as_ : List A) → has p (each nodes as_) ≡ false
  unfolding has
  has-each-false nodes h [] = refl
  has-each-false nodes h (a ∷ as_) =
      has-append (nodes a) (each nodes as_)
      ∙ ap (λ t. t || has p (each nodes as_)) (h a)
      ∙ has-each-false nodes h as_

pub ruleset parts = (has-append, has-when, has-either)

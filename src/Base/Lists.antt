-- ===== src/Base/Lists.antt =====
-- Lists measured by native numbers, predicates over lists, and joining.
use Prim.Native.Nat.{ℕ, zero, suc, ◌+◌, ◌≤◌}
use slai.Base.Tests.{tally}
use mathlib.Core.Path.{◌≡◌, refl}
use mathlib.Core.Logic.{◌↔◌}
use mathlib.Core.Bool.{Bool, true, false, ◌&&◌, ◌||◌}
use mathlib.Core.List.{List, [], ◌∷◌, ◌++◌}
use native.Mathlib.Omega.{arith}

module _ {ℓ} {A : Type ℓ} where
  abbrev pub length : List A → ℕ
  length [] = 0
  length (x ∷ xs) = suc (length xs)

  pub length-append : (xs ys : List A) → length (xs ++ ys) ≡ length xs + length ys
  length-append [] ys = omega arith
  length-append (x ∷ xs) ys = omega (arith, length-append xs ys)

  abbrev pub all : (A → Bool) → List A → Bool
  all p [] = true
  all p (x ∷ xs) = p x && all p xs

  abbrev pub any : (A → Bool) → List A → Bool
  any p [] = false
  any p (x ∷ xs) = p x || any p xs

  pub all-append :
      (p : A → Bool) (xs ys : List A) → all p xs ≡ true → all p ys ≡ true → all p (xs ++ ys) ≡ true
  all-append p [] ys h k = k
  all-append p (x ∷ xs) ys h k = ground (arith, all-append p xs ys)

  abbrev pub take : ℕ → List A → List A
  take zero xs = []
  take (suc n) [] = []
  take (suc n) (x ∷ xs) = x ∷ take n xs

  abbrev pub drop : ℕ → List A → List A
  drop zero xs = xs
  drop (suc n) [] = []
  drop (suc n) (x ∷ xs) = drop n xs

  abbrev pub filter_by : (A → Bool) → List A → List A
  filter_by p [] = []
  filter_by p (x ∷ xs) = elim (p x) [ true ↦ x ∷ filter_by p xs | false ↦ filter_by p xs ]

module _ {ℓ κ} {A : Type ℓ} (P : A → Type κ) where
  abbrev pub All : List A → Type κ
  All [] = Unit
  All (x ∷ xs) = P x × All xs

  pub All-append : (xs ys : List A) → All xs → All ys → All (xs ++ ys)
  All-append [] ys h k = k
  All-append (x ∷ xs) ys (p, h) k = (p, All-append xs ys h k)

module _ {ℓ} {A : Type ℓ} where
  pub length-filter_by :
      (p : A → Bool) (x : A) (xs : List A)
      → length (filter_by p (x ∷ xs)) ≡ tally (p x) + length (filter_by p xs)
  length-filter_by p x xs = ground arith

  -- Three tests of which an element passes one at most.
  pub three_filters-le :
      (p q r : A → Bool)
      → ((x : A) → tally (p x) + tally (q x) + tally (r x) ≤ 1)
      → (xs : List A)
      → length (filter_by p xs) + length (filter_by q xs) + length (filter_by r xs) ≤ length xs
  three_filters-le p q r h [] = omega arith
  three_filters-le p q r h (x ∷ xs) = omega (
    arith,
    length-filter_by p x xs,
    length-filter_by q x xs,
    length-filter_by r x xs,
    h x,
    three_filters-le p q r h xs,
  )

  pub data Mem (a : A) : List A → Type ℓ where
    here : {xs : List A} → Mem a (a ∷ xs)
    there : {x : A} {xs : List A} → Mem a xs → Mem a (x ∷ xs)

  pub Mem-append_left : {a : A} (xs ys : List A) → Mem a ys → Mem a (xs ++ ys)
  Mem-append_left [] ys h = h
  Mem-append_left (x ∷ xs) ys h = there (Mem-append_left xs ys h)

module _ {ℓ κ} {A : Type ℓ} (P : A → Type κ) where
  pub All-Mem : (xs : List A) (a : A) → All P xs → Mem a xs → P a
  All-Mem [] a h m = elim m [ ]
  All-Mem (x ∷ xs) a (p, h) here = p
  All-Mem (x ∷ xs) a (p, h) (there m) = All-Mem xs a h m

module _ {ℓ} {A : Type ℓ} where
  abbrev pub sum_of : (A → ℕ) → List A → ℕ
  sum_of g [] = 0
  sum_of g (x ∷ xs) = g x + sum_of g xs

  -- A measure that each step of a fold adds to.
  pub fold-sum_of {κ} :
      {S : Type κ} (add : S → A → S) (fold : S → List A → S) (measure : S → ℕ) (g : A → ℕ)
      → ((s : S) → fold s [] ≡ s)
      → ((s : S) (x : A) (xs : List A) → fold s (x ∷ xs) ≡ fold (add s x) xs)
      → ((s : S) (x : A) → measure (add s x) ≡ measure s + g x)
      → (xs : List A) (s : S) → measure (fold s xs) ≡ measure s + sum_of g xs
  fold-sum_of add fold measure g done next adds [] s = rw (done s) (omega arith)
  fold-sum_of add fold measure g done next adds (x ∷ xs) s =
      rw (next s x xs)
        (omega (arith, fold-sum_of add fold measure g done next adds xs (add s x), adds s x))

  -- What a filter leaves passes its test.
  pub All-filter_by : (p : A → Bool) (xs : List A) → All (λ x. p x ≡ true) (filter_by p xs)
  All-filter_by p [] = tt
  All-filter_by p (x ∷ xs) = go (p x) refl (All-filter_by p xs)
    where
      go :
          (b : Bool)
          → p x ≡ b
          → All (λ y. p y ≡ true) (filter_by p xs)
          → All (λ y. p y ≡ true) (elim b [ true ↦ x ∷ filter_by p xs | false ↦ filter_by p xs ])
      go true e h = (e, h)
      go false e h = h

  -- The members of a list that pass a test.
  abbrev PassIn : (A → Bool) → A → List A → List A → Type ℓ
  PassIn p a ys xs = Mem a ys ↔ (Mem a xs × (p a ≡ true))

  kept :
      (p : A → Bool) (a x : A) (ys xs : List A)
      → p x ≡ true
      → PassIn p a ys xs
      → Mem a (x ∷ ys)
      → Mem a (x ∷ xs) × (p a ≡ true)
  kept p a x ys xs e h here = (here, e)
  kept p a x ys xs e h (there m) = (there (h.0 m).0, (h.0 m).1)

  kept_back :
      (p : A → Bool) (a x : A) (ys xs : List A)
      → PassIn p a ys xs
      → Mem a (x ∷ xs) × (p a ≡ true)
      → Mem a (x ∷ ys)
  kept_back p a x ys xs h (here, e) = here
  kept_back p a x ys xs h (there m, e) = there (h.1 (m, e))

  dropped :
      (p : A → Bool) (a x : A) (ys xs : List A)
      → p x ≡ false
      → PassIn p a ys xs
      → Mem a (x ∷ xs) × (p a ≡ true)
      → Mem a ys
  dropped p a x ys xs n h (here, e) = ground (arith, n, e)
  dropped p a x ys xs n h (there m, e) = h.1 (m, e)

  pub Mem-filter_by_iff :
      (p : A → Bool) (a : A) (xs : List A) → Mem a (filter_by p xs) ↔ (Mem a xs × (p a ≡ true))
  Mem-filter_by_iff p a [] = (λ m. elim m [ ], λ h. elim (h.0) [ ])
  Mem-filter_by_iff p a (x ∷ xs) = go (p x) refl (Mem-filter_by_iff p a xs)
    where
      go :
          (b : Bool)
          → p x ≡ b
          → PassIn p a (filter_by p xs) xs
          → PassIn p a (elim b [ true ↦ x ∷ filter_by p xs | false ↦ filter_by p xs ]) (x ∷ xs)
      go true e h = (kept p a x (filter_by p xs) xs e h, kept_back p a x (filter_by p xs) xs h)
      go false e h = (λ m. (there (h.0 m).0, (h.0 m).1), dropped p a x (filter_by p xs) xs e h)

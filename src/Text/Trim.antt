-- ===== src/Text/Trim.antt =====
-- Trimming: what it leaves, and when it changes nothing.
use slai.Base.{
  ℕ, Bool, true, false, not, [], ◌∷◌, ◌≡◌, ◌↔◌, ◌⊎◌, inl, inr, refl, all, arith, Bool-cases, ap,
  ◌&&◌,
}
use slai.Text.{Str, is_space, keep, trim_start, trim_end, trim}

trim_start_cases :
    (s : Str)
    → (trim_start s ≡ []) ⊎ ((c : ℕ) × (r : Str) × (trim_start s ≡ c ∷ r) × (is_space c ≡ false))
unfolding trim_start
trim_start_cases [] = inl refl
trim_start_cases (c ∷ s) = elim (Bool-cases (is_space c)) [
  | inl e ↦ rw e (trim_start_cases s)
  | inr e ↦ inr (c, s, rw e, e)
]

trim_start-keep : (c : ℕ) (t : Str) → is_space c ≡ false → trim_start (keep c t) ≡ keep c t
unfolding trim_start
trim_start-keep c [] h = rw (h) (rw h refl)
trim_start-keep c (d ∷ t) h = rw h refl

trim_end-keep : (c : ℕ) (t : Str) → trim_end t ≡ t → trim_end (keep c t) ≡ keep c t
unfolding trim_end
trim_end-keep c [] h = elim (Bool-cases (is_space c)) [
  | inl e ↦ rw e refl
  | inr e ↦ rw e (rw e refl)
]
trim_end-keep c (d ∷ t) h = ap (keep c) h

trim_end_idem : (s : Str) → trim_end (trim_end s) ≡ trim_end s
unfolding trim_end
trim_end_idem [] = refl
trim_end_idem (c ∷ s) = trim_end-keep c (trim_end s) (trim_end_idem s)

-- What trimming leaves has no white space at either end.
abbrev pub IsTrimmed : Str → Type 0
IsTrimmed s = (trim_start s ≡ s) × (trim_end s ≡ s)

pub trim-IsTrimmed : (s : Str) → IsTrimmed (trim s)
unfolding trim
trim-IsTrimmed s = elim (trim_start_cases s) [
  | inl e ↦ rw e (refl, refl)
  | inr (c, r, e, h) ↦ rw e (trim_start-keep c (trim_end r) h, trim_end_idem (c ∷ r))
]

pub trim_of_IsTrimmed : (s : Str) → IsTrimmed s → trim s ≡ s
unfolding trim
trim_of_IsTrimmed s (a, b) = rw a b

pub trim_idem : (s : Str) → trim (trim s) ≡ trim s
trim_idem s = trim_of_IsTrimmed (trim s) (trim-IsTrimmed s)

abbrev pub is_plain : ℕ → Bool
is_plain c = not (is_space c)

trim_end_of_plain : (s : Str) → all is_plain s ≡ true → trim_end s ≡ s
unfolding trim_end
trim_end_of_plain [] h = refl
trim_end_of_plain (c ∷ []) h = ground arith
trim_end_of_plain (c ∷ d ∷ s) h = ap (keep c) (trim_end_of_plain (d ∷ s) (ground arith))

trim_start_of_plain : (s : Str) → all is_plain s ≡ true → trim_start s ≡ s
unfolding trim_start
trim_start_of_plain [] h = refl
trim_start_of_plain (c ∷ s) h = ground arith

-- A string with no white space is left as it is.
pub trim_of_plain : (s : Str) → all is_plain s ≡ true → trim s ≡ s
trim_of_plain s h = trim_of_IsTrimmed s (trim_start_of_plain s h, trim_end_of_plain s h)

trim_end-eq-nil : (s : Str) → trim_end s ≡ [] → all is_space s ≡ true
unfolding trim_end
trim_end-eq-nil [] h = refl
trim_end-eq-nil (c ∷ s) h = go (trim_end s) h (trim_end-eq-nil s)
  where
    go :
        (t : Str)
        → keep c t ≡ []
        → (t ≡ [] → all is_space s ≡ true)
        → (is_space c && all is_space s) ≡ true
    go [] e ih = ground (arith, ih refl)
    go (d ∷ t) e ih = cc

trim_start-all_space : (s : Str) → all is_space s ≡ true → trim_start s ≡ []
unfolding trim_start
trim_start-all_space [] h = refl
trim_start-all_space (c ∷ s) h = ground (arith, trim_start-all_space s)

trim_start-eq-nil : (s : Str) → trim_start s ≡ [] → all is_space s ≡ true
unfolding trim_start
trim_start-eq-nil [] h = refl
trim_start-eq-nil (c ∷ s) h = ground (arith, trim_start-eq-nil s)

-- Nothing is left exactly of a string of white space.
pub trim-eq-nil_iff : (s : Str) → (trim s ≡ []) ↔ (all is_space s ≡ true)
unfolding trim
trim-eq-nil_iff s = (to, λ h. rw (trim_start-all_space s h) refl)
  where
    to : trim_end (trim_start s) ≡ [] → all is_space s ≡ true
    to h = elim (trim_start_cases s) [
      | inl e ↦ trim_start-eq-nil s e
      | inr (c, r, e, p) ↦
          let k : all is_space (c ∷ r) ≡ true = trim_end-eq-nil (c ∷ r) (rw e at h) in
          ground (arith, k)
    ]

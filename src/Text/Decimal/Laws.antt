-- ===== src/Text/Decimal/Laws.antt =====
-- Reading back what was written.
use slai.Base.{
  ℕ, zero, suc, ◌+◌, ◌-◌, ◌*◌, ◌/◌, ◌%◌, ◌≤◌, ◌<◌, ◌≡◌, ◌≢◌, refl, ap, ◌∙◌, true, not, [], ◌∷◌,
  ◌++◌, ltb, ◌==◌, arith, all, all-append, length, length-append, Bool-cases, inl, inr, ltb→lt,
  &&-true,
}
use slai.Text.{Str, is_digit, is_space}
use slai.Text.Trim.{is_plain}
use slai.Text.Decimal.{
  digit, digits_from, to_digits, fixed_digits, value_from, of_digits, pad_end, split, strip_zeros,
  keep_digit, cons_head,
}

value_from-append :
    (acc : ℕ) (s t : Str) → value_from acc (s ++ t) ≡ value_from (value_from acc s) t
unfolding value_from
value_from-append acc [] t = refl
value_from-append acc (c ∷ s) t = value_from-append (acc * 10 + (c - b'0')) s t

of_digits-snoc : (s : Str) (d : ℕ) → of_digits (s ++ digit d ∷ []) ≡ of_digits s * 10 + d
unfolding of_digits
of_digits-snoc s d = value_from-append 0 s (digit d ∷ []) ∙ (omega arith)

digit-is_digit : (d : ℕ) → d < 10 → is_digit (digit d) ≡ true
digit-is_digit d h = ground arith

digits_from-of_digits : (f n : ℕ) → n < f → of_digits (digits_from f n) ≡ n
unfolding digits_from
digits_from-of_digits zero n h = elim h [ ]
digits_from-of_digits (suc f) n h = elim (Bool-cases (ltb n 10)) [
  | inl e ↦ rw e (unfold of_digits value_from in omega arith)
  | inr e ↦ rw e (
      of_digits-snoc (digits_from f (n / 10)) (n % 10)
      ∙ omega (arith, digits_from-of_digits f (n / 10) (ground arith)))
]

-- `Number(String(n))` is n.
pub of_digits-to_digits : (n : ℕ) → of_digits (to_digits n) ≡ n
unfolding to_digits
of_digits-to_digits n = digits_from-of_digits (suc n) n (omega arith)

digits_from-all : (f n : ℕ) → all is_digit (digits_from f n) ≡ true
unfolding digits_from
digits_from-all zero n = refl
digits_from-all (suc f) n = elim (Bool-cases (ltb n 10)) [
  | inl e ↦ rw e (ground (arith, digit-is_digit n (ltb→lt n 10 e)))
  | inr e ↦ rw e (
      all-append is_digit (digits_from f (n / 10)) _ (digits_from-all f (n / 10))
        (ground (arith, digit-is_digit (n % 10) (omega arith))))
]

pub to_digits-all : (n : ℕ) → all is_digit (to_digits n) ≡ true
unfolding to_digits
to_digits-all n = digits_from-all (suc n) n

append-ne-nil : (s : Str) (c : ℕ) → s ++ c ∷ [] ≢ []
append-ne-nil [] c h = cc
append-ne-nil (x ∷ s) c h = cc

pub to_digits-ne-nil : (n : ℕ) → to_digits n ≢ []
unfolding to_digits digits_from
to_digits-ne-nil n h = elim (Bool-cases (ltb n 10)) [
  | inl e ↦ cc (rw e at h)
  | inr e ↦ append-ne-nil (digits_from n (n / 10)) (digit (n % 10)) (rw e at h)
]

pub fixed_digits-all : (k n : ℕ) → all is_digit (fixed_digits k n) ≡ true
unfolding fixed_digits
fixed_digits-all zero n = refl
fixed_digits-all (suc k) n =
    all-append is_digit (fixed_digits k (n / 10)) _ (fixed_digits-all k (n / 10))
      (ground (arith, digit-is_digit (n % 10) (omega arith)))

pub length-fixed_digits : (k n : ℕ) → length (fixed_digits k n) ≡ k
unfolding fixed_digits
length-fixed_digits zero n = refl
length-fixed_digits (suc k) n =
    length-append (fixed_digits k (n / 10)) _ ∙ omega (arith, length-fixed_digits k (n / 10))

-- A digit is neither white space nor the point.
digit-is_plain : (c : ℕ) → is_digit c ≡ true → is_plain c ≡ true
unfolding is_space
digit-is_plain c h = ground arith

pub digits-is_plain : (s : Str) → all is_digit s ≡ true → all is_plain s ≡ true
digits-is_plain [] h = refl
digits-is_plain (c ∷ s) h =
    let (hc, hs) = &&-true (is_digit c) (all is_digit s) h in
    ground (arith, digit-is_plain c hc, digits-is_plain s hs)

pub length-pad_end : (n c : ℕ) (s : Str) → length s ≤ n → length (pad_end n c s) ≡ n
unfolding pad_end
length-pad_end zero c [] h = refl
length-pad_end zero c (x ∷ s) h = absurd (omega arith)
length-pad_end (suc n) c [] h = ap suc (length-pad_end n c [] (omega arith))
length-pad_end (suc n) c (x ∷ s) h = ap suc (length-pad_end n c s (omega arith))

pub pad_end_full : (n c : ℕ) (s : Str) → length s ≡ n → pad_end n c s ≡ s
unfolding pad_end
pad_end_full zero c s h = refl
pad_end_full (suc n) c [] h = absurd (omega arith)
pad_end_full (suc n) c (x ∷ s) h = ap (λ t. x ∷ t) (pad_end_full n c s (omega arith))

pad_end-keep_digit :
    (n c : ℕ) (t : Str) → pad_end (suc n) b'0' (keep_digit c t) ≡ c ∷ pad_end n b'0' t
unfolding pad_end
pad_end-keep_digit n c [] = ground arith
pad_end-keep_digit n c (d ∷ t) = refl

-- Padding puts back the zeros that were stripped.
pub pad_end-strip_zeros : (n : ℕ) (s : Str) → length s ≡ n → pad_end n b'0' (strip_zeros s) ≡ s
unfolding strip_zeros
pad_end-strip_zeros zero [] h = unfold pad_end in refl
pad_end-strip_zeros zero (c ∷ s) h = absurd (omega arith)
pad_end-strip_zeros (suc n) [] h = absurd (omega arith)
pad_end-strip_zeros (suc n) (c ∷ s) h =
    pad_end-keep_digit n c (strip_zeros s) ∙ ap (λ t. c ∷ t) (pad_end-strip_zeros n s (omega arith))

pub split-all : (c : ℕ) (s : Str) → all (λ x. not (x == c)) s ≡ true → split c s ≡ s ∷ []
unfolding split
split-all c [] h = refl
split-all c (x ∷ s) h = elim (Bool-cases (x == c)) [
  | inl e ↦ ground (arith, e)
  | inr e ↦ rw e (ap (cons_head x) (split-all c s (ground (arith, e))))
]

pub split-append :
    (c : ℕ) (s t : Str) → all (λ x. not (x == c)) s ≡ true → split c (s ++ c ∷ t) ≡ s ∷ split c t
unfolding split
split-append c [] t h = ground arith
split-append c (x ∷ s) t h = elim (Bool-cases (x == c)) [
  | inl e ↦ ground (arith, e)
  | inr e ↦ rw e (ap (cons_head x) (split-append c s t (ground (arith, e))))
]

fixed_digits-suc :
    (k n : ℕ)
    → of_digits (fixed_digits (suc k) n) ≡ of_digits (fixed_digits k (n / 10)) * 10 + n % 10
unfolding fixed_digits
fixed_digits-suc k n = of_digits-snoc (fixed_digits k (n / 10)) (n % 10)

fixed_digits-zero : (n : ℕ) → of_digits (fixed_digits 0 n) ≡ 0
unfolding fixed_digits of_digits
fixed_digits-zero n = refl

-- The last six digits are the remainder by a million.
pub of_digits-fixed_digits : (n : ℕ) → of_digits (fixed_digits 6 n) ≡ n % 1000000
of_digits-fixed_digits n =
    rw
      (
        fixed_digits-suc 5 n,
        fixed_digits-suc 4 (n / 10),
        fixed_digits-suc 3 (n / 10 / 10),
        fixed_digits-suc 2 (n / 10 / 10 / 10),
        fixed_digits-suc 1 (n / 10 / 10 / 10 / 10),
        fixed_digits-suc 0 (n / 10 / 10 / 10 / 10 / 10),
        fixed_digits-zero (n / 10 / 10 / 10 / 10 / 10 / 10),
      )
      (omega arith)

pub strip_zeros-all : (s : Str) → all is_digit s ≡ true → all is_digit (strip_zeros s) ≡ true
unfolding strip_zeros
strip_zeros-all [] h = refl
strip_zeros-all (c ∷ s) h =
    let (hc, hs) = &&-true (is_digit c) (all is_digit s) h in
    go (strip_zeros s) hc (strip_zeros-all s hs)
  where
    go :
        (t : Str) → is_digit c ≡ true → all is_digit t ≡ true → all is_digit (keep_digit c t) ≡ true
    go [] hc ht = ground arith
    go (d ∷ t) hc ht = rw hc ht

pub length-strip_zeros : (s : Str) → length (strip_zeros s) ≤ length s
unfolding strip_zeros
length-strip_zeros [] = omega arith
length-strip_zeros (c ∷ s) = go (strip_zeros s) (length-strip_zeros s)
  where
    go : (t : Str) → length t ≤ length s → length (keep_digit c t) ≤ suc (length s)
    go [] h = ground arith
    go (d ∷ t) h = omega arith

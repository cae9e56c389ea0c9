-- ===== src/Packages/Amount/Laws.antt =====
-- What the amount patterns accept, and how `split(".")` takes it apart.
use slai.Base.{
  ℕ, suc, ◌==◌, ◌≤◌, ◌≡◌, ◌≢◌, refl, sym, ap, ◌∙◌, inl, inr, true, not, List, [], ◌∷◌, ◌++◌, all,
  all-append, arith, length, &&-true, ==_iff, append-nil,
}
use slai.Text.{Str, is_digit, is_space, trim}
use slai.Text.Trim.{is_plain, trim_of_plain}
use slai.Text.Regex.{Regex, unit, test}
use slai.Text.Regex.Semantics.{test_iff, Lang, Lang-plus_unit_iff, Lang-up_to_unit_iff}
use slai.Text.Decimal.{split}
use slai.Text.Decimal.Laws.{digits-is_plain, split-all, split-append}
use slai.Packages.Amount.{point, amount, written}

-- A whole part `w` and a fraction `f` of at most k digits.
pub record IsAmount (k : ℕ) (s w f : Str) : Type 0 where
  pub whole : w ≢ []
  pub whole_digits : all is_digit w ≡ true
  pub fraction_digits : all is_digit f ≡ true
  pub short : length f ≤ k
  pub shape : s ≡ written w f

pub test-amount→IsAmount :
    (k : ℕ) (s : Str) → test (amount k) s ≡ true → (w : Str) × (f : Str) × IsAmount (suc k) s w f
test-amount→IsAmount k s h = go ((test_iff (amount k) s).0 h)
  where
    go : Lang (amount k) s → (w : Str) × (f : Str) × IsAmount (suc k) s w f
    go (w, b, e, hw, inl eb) =
        let (nw, dw) = (Lang-plus_unit_iff is_digit w).0 hw in
        (
          w,
          [],
          record {
            whole = nw;
            whole_digits = dw;
            fraction_digits = refl;
            short = omega arith;
            shape = e ∙ ap (λ x. w ++ x) eb ∙ append-nil w;
          },
        )
    go (w, b, e, hw, inr (p, q, eq, (c, isp, ep), (x, y, ef, (d, isd, ed), hy))) =
        let (nw, dw) = (Lang-plus_unit_iff is_digit w).0 hw in
        let (ly, dy) = (Lang-up_to_unit_iff is_digit k y).0 hy in
        let same : c ≡ point = (==_iff c point).0 isp in
        (
          w,
          d ∷ y,
          record {
            whole = nw;
            whole_digits = dw;
            fraction_digits = rw isd dy;
            short = omega arith;
            shape = rw (e, eq, ep, ef, ed, same) refl;
          },
        )

pub IsAmount→test : (k : ℕ) (s w f : Str) → IsAmount (suc k) s w f → test (amount k) s ≡ true
IsAmount→test k s w f h = (test_iff (amount k) s).1 (go f h.fraction_digits h.short h.shape)
  where
    whole : Lang (Regex.seq (unit is_digit) (Regex.star (unit is_digit))) w
    whole = (Lang-plus_unit_iff is_digit w).1 (h.whole, h.whole_digits)

    go : (f : Str) → all is_digit f ≡ true → length f ≤ suc k → s ≡ written w f → Lang (amount k) s
    go [] hd hl e = (w, [], e ∙ sym (append-nil w), whole, inl refl)
    go (c ∷ f) hd hl e =
        let (hc, hf) = &&-true (is_digit c) (all is_digit f) hd in
        (
          w,
          point ∷ c ∷ f,
          e,
          whole,
          inr (
            point ∷ [],
            c ∷ f,
            refl,
            (point, refl, refl),
            (
              c ∷ [],
              f,
              refl,
              (c, hc, refl),
              (Lang-up_to_unit_iff is_digit k f).1 (omega arith, hf),
            ),
          ),
        )

digit-not-point : (c : ℕ) → is_digit c ≡ true → not (c == point) ≡ true
digit-not-point c h = ground arith

digits-not-point : (s : Str) → all is_digit s ≡ true → all (λ x. not (x == point)) s ≡ true
digits-not-point [] h = refl
digits-not-point (c ∷ s) h =
    let (hc, hs) = &&-true (is_digit c) (all is_digit s) h in
    ground (arith, digit-not-point c hc, digits-not-point s hs)

-- The parts of `split(".")`.
abbrev pub parts : Str → Str → List Str
parts w [] = w ∷ []
parts w (c ∷ f) = w ∷ (c ∷ f) ∷ []

pub split-written :
    (w f : Str)
    → all is_digit w ≡ true
    → all is_digit f ≡ true
    → split point (written w f) ≡ parts w f
split-written w [] hw hf = split-all point w (digits-not-point w hw)
split-written w (c ∷ f) hw hf =
    split-append point w (c ∷ f) (digits-not-point w hw)
    ∙ ap (λ x. w ∷ x) (split-all point (c ∷ f) (digits-not-point (c ∷ f) hf))

point-is_plain : is_plain point ≡ true
unfolding is_space
point-is_plain = refl

written-is_plain :
    (w f : Str) → all is_digit w ≡ true → all is_digit f ≡ true → all is_plain (written w f) ≡ true
written-is_plain w [] hw hf = digits-is_plain w hw
written-is_plain w (c ∷ f) hw hf =
    all-append is_plain w (point ∷ c ∷ f) (digits-is_plain w hw)
      (rw point-is_plain (digits-is_plain (c ∷ f) hf))

-- An amount has no white space to trim.
pub trim-IsAmount : (k : ℕ) (s w f : Str) → IsAmount k s w f → trim s ≡ s
trim-IsAmount k s w f h =
    trim_of_plain s (rw h.shape (written-is_plain w f h.whole_digits h.fraction_digits))

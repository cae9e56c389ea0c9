-- ===== src/Text/Regex/Semantics.antt =====
-- The language of a regular expression, and that the test decides it.
use slai.Base.{
  ℕ, zero, suc, ◌≡◌, refl, sym, ap, ◌∙◌, Bool, true, false, List, [], ◌∷◌, ◌++◌, ◌⊎◌, inl, inr, ◌↔◌,
  ◌≢◌, arith, All, if◌then◌else◌, all, &&-true, ||-true, length, ◌≤◌, subst,
}
use slai.Text.{Str}
use slai.Text.Regex.{Regex, empty, nil, unit, seq, alt, star, nullable, derive, test, times, up_to}

abbrev pub concat : List Str → Str
concat [] = []
concat (p ∷ ps) = p ++ concat ps

abbrev pub Lang : Regex → Str → Type 0
Lang empty s = ⊥
Lang nil s = s ≡ []
Lang (unit p) s = (c : ℕ) × (p c ≡ true) × (s ≡ c ∷ [])
Lang (seq r t) s = (a : Str) × (b : Str) × (s ≡ a ++ b) × Lang r a × Lang t b
Lang (alt r t) s = Lang r s ⊎ Lang t s
Lang (star r) s = (ps : List Str) × (s ≡ concat ps) × All (Lang r) ps

append-eq-nil : (a b : Str) → a ++ b ≡ [] → (a ≡ []) × (b ≡ [])
append-eq-nil [] b h = (refl, h)
append-eq-nil (x ∷ a) b h = cc

nullable→Lang : (r : Regex) → nullable r ≡ true → Lang r []
unfolding nullable
nullable→Lang empty h = cc
nullable→Lang nil h = refl
nullable→Lang (unit p) h = cc
nullable→Lang (seq r t) h =
    let (hr, ht) = &&-true _ _ h in ([], [], refl, nullable→Lang r hr, nullable→Lang t ht)
nullable→Lang (alt r t) h = elim (||-true _ _ h) [
  | inl e ↦ inl (nullable→Lang r e)
  | inr e ↦ inr (nullable→Lang t e)
]
nullable→Lang (star r) h = ([], refl, tt)

Lang→nullable : (r : Regex) (s : Str) → s ≡ [] → Lang r s → nullable r ≡ true
unfolding nullable
Lang→nullable empty s e h = absurd h
Lang→nullable nil s e h = refl
Lang→nullable (unit p) s e (c, _, k) = cc
Lang→nullable (seq r t) s e (a, b, k, ha, hb) =
    let (ea, eb) = append-eq-nil a b (sym k ∙ e) in
    rw (Lang→nullable r a ea ha) (Lang→nullable t b eb hb)
Lang→nullable (alt r t) s e (inl h) = rw (Lang→nullable r s e h)
Lang→nullable (alt r t) s e (inr h) = ground (arith, Lang→nullable t s e h)
Lang→nullable (star r) s e h = refl

-- A language that is there under a test.
Lang-if : (b : Bool) (r : Regex) (s : Str) → Lang (if b then r else empty) s → (b ≡ true) × Lang r s
Lang-if true r s h = (refl, h)
Lang-if false r s h = absurd h

Lang→Lang-if :
    (b : Bool) (r : Regex) (s : Str) → b ≡ true → Lang r s → Lang (if b then r else empty) s
Lang→Lang-if true r s e h = h
Lang→Lang-if false r s e h = cc

derive→Lang : (r : Regex) (c : ℕ) (s : Str) → Lang (derive r c) s → Lang r (c ∷ s)
unfolding derive
derive→Lang empty c s h = h
derive→Lang nil c s h = absurd h
derive→Lang (unit p) c s h = let (ok, e) = Lang-if (p c) nil s h in (c, ok, ap (λ x. c ∷ x) e)
derive→Lang (seq r t) c s (inl (a, b, e, ha, hb)) =
    (c ∷ a, b, ap (λ x. c ∷ x) e, derive→Lang r c a ha, hb)
derive→Lang (seq r t) c s (inr h) =
    let (n, ht) = Lang-if (nullable r) (derive t c) s h in
    ([], c ∷ s, refl, nullable→Lang r n, derive→Lang t c s ht)
derive→Lang (alt r t) c s (inl h) = inl (derive→Lang r c s h)
derive→Lang (alt r t) c s (inr h) = inr (derive→Lang t c s h)
derive→Lang (star r) c s (a, b, e, ha, (ps, f, hp)) =
    ((c ∷ a) ∷ ps, ap (λ x. c ∷ x) (e ∙ ap (λ x. a ++ x) f), (derive→Lang r c a ha, hp))

tail-eq : {c d : ℕ} {s t : Str} → c ∷ s ≡ d ∷ t → (c ≡ d) × (s ≡ t)
tail-eq h = (cc, cc)

-- The first piece of a star that is not empty.
Lang-star_head :
    (r : Regex) (c : ℕ) (s : Str) (ps : List Str)
    → c ∷ s ≡ concat ps
    → All (Lang r) ps
    → (a : Str) × (b : Str) × (s ≡ a ++ b) × Lang r (c ∷ a) × Lang (star r) b
Lang-star_head r c s [] e h = cc
Lang-star_head r c s ([] ∷ ps) e (_, h) = Lang-star_head r c s ps e h
Lang-star_head r c s ((d ∷ a) ∷ ps) e (h, hs) =
    let (same, rest) = tail-eq e in
    (a, concat ps, rest, subst (λ x. Lang r (x ∷ a)) (sym same) h, (ps, refl, hs))

Lang→derive : (r : Regex) (c : ℕ) (s : Str) (w : Str) → w ≡ c ∷ s → Lang r w → Lang (derive r c) s
unfolding derive
Lang→derive empty c s w e h = h
Lang→derive nil c s w e h = cc
Lang→derive (unit p) c s w e (d, ok, f) =
    let (same, rest) = tail-eq (sym e ∙ f) in
    Lang→Lang-if (p c) nil s (subst (λ x. p x ≡ true) (sym same) ok) rest
Lang→derive (seq r t) c s w e ([], b, f, ha, hb) = inr (
    Lang→Lang-if (nullable r) (derive t c) s (Lang→nullable r [] refl ha)
      (Lang→derive t c s b (sym f ∙ e) hb))
Lang→derive (seq r t) c s w e (d ∷ a, b, f, ha, hb) =
    let (same, rest) = tail-eq (sym e ∙ f) in
    inl (a, b, rest, Lang→derive r c a (d ∷ a) (ap (λ x. x ∷ a) (sym same)) ha, hb)
Lang→derive (alt r t) c s w e (inl h) = inl (Lang→derive r c s w e h)
Lang→derive (alt r t) c s w e (inr h) = inr (Lang→derive t c s w e h)
Lang→derive (star r) c s w e (ps, f, hs) =
    let (a, b, g, ha, hb) = Lang-star_head r c s ps (sym e ∙ f) hs in
    (a, b, g, Lang→derive r c a (c ∷ a) refl ha, hb)

test→Lang : (r : Regex) (s : Str) → test r s ≡ true → Lang r s
unfolding test
test→Lang r [] h = nullable→Lang r h
test→Lang r (c ∷ s) h = derive→Lang r c s (test→Lang (derive r c) s h)

Lang→test : (r : Regex) (s : Str) → Lang r s → test r s ≡ true
unfolding test
Lang→test r [] h = Lang→nullable r [] refl h
Lang→test r (c ∷ s) h = Lang→test (derive r c) s (Lang→derive r c s (c ∷ s) refl h)

-- The derivative test decides the language.
pub test_iff : (r : Regex) (s : Str) → (test r s ≡ true) ↔ Lang r s
test_iff r s = (test→Lang r s, Lang→test r s)

-- A star of one class is a run of it.
pub Lang-star_unit→all :
    (p : ℕ → Bool) (s : Str) (ps : List Str)
    → s ≡ concat ps
    → All (Lang (unit p)) ps
    → all p s ≡ true
Lang-star_unit→all p s [] e h = rw e
Lang-star_unit→all p s (q ∷ ps) e ((c, ok, f), h) =
    rw (e, f, ok) (Lang-star_unit→all p (concat ps) ps refl h)

pub all→Lang-star_unit : (p : ℕ → Bool) (s : Str) → all p s ≡ true → Lang (star (unit p)) s
all→Lang-star_unit p [] h = ([], refl, tt)
all→Lang-star_unit p (c ∷ s) h =
    let (hc, hs) = &&-true _ _ h in
    let (ps, e, k) = all→Lang-star_unit p s hs in
    ((c ∷ []) ∷ ps, ap (λ x. c ∷ x) e, ((c, hc, refl), k))

-- `[p]+` is a run of `p` that is not empty.
pub Lang-plus_unit_iff :
    (p : ℕ → Bool) (s : Str) → Lang (seq (unit p) (star (unit p))) s ↔ ((s ≢ []) × (all p s ≡ true))
Lang-plus_unit_iff p s = (to, from s)
  where
    to : Lang (seq (unit p) (star (unit p))) s → (s ≢ []) × (all p s ≡ true)
    to (a, b, e, (c, ok, f), (ps, g, h)) =
        let k = Lang-star_unit→all p b ps g h in (λ n. cc, rw (e, f, ok) k)

    from : (s : Str) → (s ≢ []) × (all p s ≡ true) → Lang (seq (unit p) (star (unit p))) s
    from [] (n, h) = absurd (n refl)
    from (c ∷ s) (n, h) =
        let (hc, hs) = &&-true _ _ h in (c ∷ [], s, refl, (c, hc, refl), all→Lang-star_unit p s hs)

-- `[p]{n}` is a run of `p` of length n.
pub Lang-times_unit_iff :
    (p : ℕ → Bool) (n : ℕ) (s : Str)
    → Lang (times n (unit p)) s ↔ ((length s ≡ n) × (all p s ≡ true))
Lang-times_unit_iff p n s = (to n s, from n s)
  where
    to : (n : ℕ) (s : Str) → Lang (times n (unit p)) s → (length s ≡ n) × (all p s ≡ true)
    to zero s h = rw h (refl, refl)
    to (suc n) s (a, b, e, (c, ok, f), h) = let (k, j) = to n b h in rw (e, f, ok) (ap suc k, j)

    from : (n : ℕ) (s : Str) → (length s ≡ n) × (all p s ≡ true) → Lang (times n (unit p)) s
    from zero [] h = refl
    from zero (c ∷ s) (h, _) = absurd (omega arith)
    from (suc n) [] (h, _) = absurd (omega arith)
    from (suc n) (c ∷ s) (h, k) =
        let (hc, hs) = &&-true _ _ k in (c ∷ [], s, refl, (c, hc, refl), from n s (omega arith, hs))

-- At most n of `[p]` is a run of `p` of length at most n.
pub Lang-up_to_unit_iff :
    (p : ℕ → Bool) (n : ℕ) (s : Str)
    → Lang (up_to n (unit p)) s ↔ ((length s ≤ n) × (all p s ≡ true))
Lang-up_to_unit_iff p n s = (to n s, from n s)
  where
    to : (n : ℕ) (s : Str) → Lang (up_to n (unit p)) s → (length s ≤ n) × (all p s ≡ true)
    to zero s h = rw h (omega arith, refl)
    to (suc n) s (inl h) = rw h (omega arith, refl)
    to (suc n) s (inr (a, b, e, (c, ok, f), h)) =
        let (k, j) = to n b h in rw (e, f, ok) (omega arith, j)

    from : (n : ℕ) (s : Str) → (length s ≤ n) × (all p s ≡ true) → Lang (up_to n (unit p)) s
    from zero [] h = refl
    from zero (c ∷ s) (h, _) = absurd (omega arith)
    from (suc n) [] h = inl refl
    from (suc n) (c ∷ s) (h, k) =
        let (hc, hs) = &&-true _ _ k in
        inr (c ∷ [], s, refl, (c, hc, refl), from n s (omega arith, hs))

-- ===== src/Format/Laws.antt =====
-- Credits as they are typed into a form again, and shortened identifiers.
use slai.Base.{
  ℕ, ◌+◌, ◌-◌, ◌≤◌, ◌<◌, ◌≡◌, refl, ap, ◌∙◌, true, [], ◌∷◌, ◌++◌, some, arith, length,
  length-append, take, drop, codes, leb, Bool-cases, leb→le, inl, inr,
}
use slai.Text.{Str, truthy, slice_last}
use slai.Format.{truncate_id}

length-take : (n : ℕ) (s : Str) → n ≤ length s → length (take n s) ≡ n
length-take ℕ.zero s h = refl
length-take (ℕ.suc n) [] h = absurd (omega arith)
length-take (ℕ.suc n) (c ∷ s) h = ap ℕ.suc (length-take n s (omega arith))

length-drop : (n : ℕ) (s : Str) → length (drop n s) ≡ length s - n
length-drop ℕ.zero s = omega arith
length-drop (ℕ.suc n) [] = omega arith
length-drop (ℕ.suc n) (c ∷ s) = omega (arith, length-drop n s)

length-shortened :
    (start end : ℕ) (v : Str)
    → start + end ≤ length v
    → length (take start v ++ codes "..." ++ slice_last end v) ≡ start + end + 3
length-shortened start end v h =
    length-append (take start v ++ codes "...") (slice_last end v)
    ∙ omega (
      arith,
      length-append (take start v) (codes "..."),
      length-take start v,
      length-drop (length v - end) v,
    )

-- A shown identifier is never longer than the identifier, and never longer than the two ends and
-- the three dots, if there is one.
pub length-truncate_id :
    (v : Str) (start end : ℕ)
    → truthy v ≡ true
    → (length (truncate_id (some v) start end) ≤ length v)
      × (length (truncate_id (some v) start end) ≤ start + end + 3)
unfolding truncate_id
length-truncate_id v start end t = elim (Bool-cases (leb (length v) (start + end + 3))) [
  | inl e ↦ rw (t, e) (omega arith, leb→le _ _ e)
  | inr e ↦
      let h : start + end + 3 < length v = ground arith in
      rw (t, e)
        (omega (arith, length-shortened start end v), omega (arith, length-shortened start end v))
]

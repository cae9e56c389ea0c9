-- ===== src/AdminPayments/Laws.antt =====
-- The date range and the summary of the payments page.
use slai.Base.{
  ◌+◌, ◌≤◌, ◌≡◌, ◌↔◌, ◌⊎◌, refl, Bool, false, not, ◌||◌, List, [], ◌∷◌, Option, none, some,
  if◌then◌else◌, str_eq, eq_iff, length, arith, Bool-cases, inl, inr, tally, three_filters-le,
}
use slai.Text.{Str, truthy}
use slai.Dates.{Calendar}
use slai.AdminPayments.{Item, Filters, check_range, validate_date_range, is_pending, summary}

-- Both ends are missing or valid, and the first is not later than the second.
abbrev pub IsOrdered : (c : Calendar) → Option (c.Time) → Option (c.Time) → Type 0
IsOrdered c (some from) (some to) = c.later from to ≡ false
IsOrdered c _ _ = ⊥

check_range_iff :
    (c : Calendar) (from to : Option (c.Time))
    → (check_range c from to ≡ none) ↔ IsOrdered c from to
unfolding check_range
check_range_iff c none to = (λ h. cc, λ h. absurd h)
check_range_iff c (some from) none = (λ h. cc, λ h. absurd h)
check_range_iff c (some from) (some to) = ground arith

empty_iff : (s : Str) → (truthy s ≡ false) ↔ (s ≡ [])
empty_iff [] = (λ h. refl, λ h. refl)
empty_iff (x ∷ s) = (λ h. cc, λ h. cc)

range_iff :
    (c : Calendar) (from to : Str)
    → ((if not (truthy from) || not (truthy to)
          then none
          else check_range c (c.get_time from) (c.get_time to))
        ≡ none)
      ↔ ((from ≡ []) ⊎ (to ≡ []) ⊎ IsOrdered c (c.get_time from) (c.get_time to))
range_iff c [] to = (λ h. inl refl, λ h. refl)
range_iff c (x ∷ from) [] = (λ h. inr (inl refl), λ h. refl)
range_iff c (x ∷ from) (y ∷ to) = (
  λ h. inr (inr ((check_range_iff c (c.get_time (x ∷ from)) (c.get_time (y ∷ to))).0 h)),
  λ h. elim h [
    | inl e ↦ cc
    | inr k ↦ elim k [
      | inl e ↦ cc
      | inr o ↦ (check_range_iff c (c.get_time (x ∷ from)) (c.get_time (y ∷ to))).1 o
    ]
  ],
)

-- A date range passes exactly when one end is empty, or both are dates and the first is not later
-- than the second.
validate_date_range_iff :
    (c : Calendar) (f : Filters)
    → (validate_date_range c f ≡ none)
      ↔ ((f.from ≡ []) ⊎ (f.to ≡ []) ⊎ IsOrdered c (c.get_time f.from) (c.get_time f.to))
unfolding validate_date_range
validate_date_range_iff c f = range_iff c f.from f.to

one_status :
    (item : Item)
    → tally (is_pending item)
        + tally (str_eq item.status "paid")
        + tally (str_eq item.status "rejected")
      ≤ 1
unfolding is_pending
one_status item = elim (Bool-cases (str_eq item.status "paid")) [
  | inl e ↦ rw ((eq_iff item.status "paid").0 e) (omega arith)
  | inr e ↦ elim (Bool-cases (str_eq item.status "rejected")) [
    | inl k ↦ rw ((eq_iff item.status "rejected").0 k) (omega arith)
    | inr k ↦ rw (e, k) (bounded (is_pending item))
  ]
]
  where
    bounded : (b : Bool) → tally b + 0 + 0 ≤ 1
    bounded b = ground arith

-- The pending, the paid and the rejected payments of the summary are together at most the payments
-- of the list.
summary-le :
    (items : List Item)
    → (summary items).pending + (summary items).paid + (summary items).rejected ≤ length items
unfolding summary
summary-le items =
    three_filters-le is_pending (λ item. str_eq item.status "paid")
      (λ item. str_eq item.status "rejected") one_status items

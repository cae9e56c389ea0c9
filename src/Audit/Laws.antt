-- ===== src/Audit/Laws.antt =====
-- The summary of the audit log: distinct values, and the latest event.
use slai.Base.{
  ◌≡◌, ◌↔◌, refl, sym, true, false, not, ◌||◌, List, [], ◌∷◌, Option, none, some, length, All, Mem,
  here, there, if_split, ◌∙◌, subst, Bool-cases, inl, inr, ||-true, if◌then◌else◌, arith,
}
use mathlib.Core.Option.{some-injective}
use slai.Text.{Str, truthy, equals}
use slai.Text.Equality.{equals_iff}
use slai.Dates.{Calendar}
use slai.Audit.{
  Item, member, distinct, admin_ids, target_types, summarize_audit_logs, latest_event, later_of,
}

-- No text twice.
abbrev pub NoRepeats : List Str → Type 0
NoRepeats [] = Unit
NoRepeats (x ∷ xs) = (¬ Mem x xs) × NoRepeats xs

member→Mem : (x : Str) (xs : List Str) → member x xs ≡ true → Mem x xs
unfolding member
member→Mem x [] h = ground (arith, h)
member→Mem x (y ∷ ys) h = elim (||-true (equals x y) (member x ys) h) [
  | inl e ↦ subst (λ (z : Str). Mem x (z ∷ ys)) ((equals_iff x y).0 e) here
  | inr m ↦ there (member→Mem x ys m)
]

Mem→member : (x : Str) (xs : List Str) → Mem x xs → member x xs ≡ true
unfolding member
Mem→member x [] m = elim m [ ]
Mem→member x (y ∷ ys) here = ground (arith, (equals_iff x x).1 refl)
Mem→member x (y ∷ ys) (there m) = ground (arith, Mem→member x ys m)

NoRepeats-distinct : (xs : List Str) → NoRepeats (distinct xs)
unfolding distinct
NoRepeats-distinct [] = tt
NoRepeats-distinct (x ∷ xs) =
    if_split NoRepeats (not (truthy x) || member x (distinct xs)) (λ e. NoRepeats-distinct xs)
      (λ e. (λ m. ground (arith, e, Mem→member x (distinct xs) m), NoRepeats-distinct xs))

dropped :
    (y x : Str) (xs : List Str)
    → (not (truthy x) || member x (distinct xs)) ≡ true
    → (Mem y xs × (truthy y ≡ true) → Mem y (distinct xs))
    → Mem y (x ∷ xs) × (truthy y ≡ true)
    → Mem y (distinct xs)
dropped y x xs e h (here, t) = member→Mem y (distinct xs) (ground (arith, e, t))
dropped y x xs e h (there m, t) = h (m, t)

kept :
    (y x : Str) (xs : List Str)
    → (not (truthy x) || member x (distinct xs)) ≡ false
    → (Mem y (distinct xs) → Mem y xs × (truthy y ≡ true))
    → Mem y (x ∷ distinct xs)
    → Mem y (x ∷ xs) × (truthy y ≡ true)
kept y x xs e h here = (here, ground (arith, e))
kept y x xs e h (there m) = (there (h m).0, (h m).1)

kept_back :
    (y x : Str) (xs : List Str)
    → (Mem y xs × (truthy y ≡ true) → Mem y (distinct xs))
    → Mem y (x ∷ xs) × (truthy y ≡ true)
    → Mem y (x ∷ distinct xs)
kept_back y x xs h (here, t) = here
kept_back y x xs h (there m, t) = there (h (m, t))

Mem-distinct_iff : (y : Str) (xs : List Str) → Mem y (distinct xs) ↔ (Mem y xs × (truthy y ≡ true))
unfolding distinct
Mem-distinct_iff y [] = (λ m. elim m [ ], λ h. elim (h.0) [ ])
Mem-distinct_iff y (x ∷ xs) =
    let (forth, back) = Mem-distinct_iff y xs in
    if_split (λ (zs : List Str). Mem y zs ↔ (Mem y (x ∷ xs) × (truthy y ≡ true)))
      (not (truthy x) || member x (distinct xs))
      (λ e. (λ m. (there (forth m).0, (forth m).1), dropped y x xs e back))
      (λ e. (kept y x xs e forth, kept_back y x xs back))

-- A list without repetitions, of exactly the non-empty texts of another one.
pub record IsSetOf (xs set : List Str) : Type 0 where
  pub no_repeats : NoRepeats set
  pub members : (y : Str) → Mem y set ↔ (Mem y xs × (truthy y ≡ true))

distinct-IsSetOf : (xs : List Str) → IsSetOf xs (distinct xs)
distinct-IsSetOf xs = record {
  no_repeats = NoRepeats-distinct xs;
  members = λ y. Mem-distinct_iff y xs;
}

abbrev pub created : List Item → List Str
created [] = []
created (item ∷ items) = item.created_at ∷ created items

Mem-insert : (m l v : Str) (vs : List Str) → Mem m (l ∷ vs) → Mem m (l ∷ v ∷ vs)
Mem-insert m l v vs here = here
Mem-insert m l v vs (there n) = there (there n)

module _ (c : Calendar) where
  abbrev pub NotLater : c.Time → Str → Type 0
  NotLater t value = (u : c.Time) × (c.get_time value ≡ some u) × (c.later u t ≡ false)

  -- One of the dates, of a time that none of them is later than.
  pub record IsLatest (values : List Str) (m : Str) : Type 0 where
    pub time : c.Time
    pub at : c.get_time m ≡ some time
    pub member : Mem m values
    pub last : All (NotLater time) values

  abbrev pub IsDate : Str → Type 0
  IsDate value = (u : c.Time) × (c.get_time value ≡ some u)

  module _ (blank : c.get_time [] ≡ none)
      (asym : (a b : c.Time) → c.later a b ≡ true → c.later b a ≡ false)
      (trans : (u v w : c.Time)
        → c.later u v ≡ false
        → c.later v w ≡ false
        → c.later u w ≡ false) where
    later_irrefl : (t : c.Time) → c.later t t ≡ false
    later_irrefl t = elim (Bool-cases (c.later t t)) [ inl h ↦ asym t t h | inr h ↦ h ]

    later_of_dates :
        (l v : Str) (t u : c.Time)
        → c.get_time l ≡ some t
        → c.get_time v ≡ some u
        → later_of c (some l) v ≡ (if c.later u t then some v else some l)
    unfolding later_of
    later_of_dates [] v t u h k = ground (arith, blank, h)
    later_of_dates (x ∷ l) v t u h k = rw (h, k) refl

    -- An earlier date in front.
    in_front :
        (l v : Str) (vs : List Str) (t u : c.Time) (m : Str)
        → c.get_time l ≡ some t
        → c.get_time v ≡ some u
        → c.later t u ≡ false
        → IsLatest (v ∷ vs) m
        → IsLatest (l ∷ v ∷ vs) m
    in_front l v vs t u m h k le r = record {
      time = r.time;
      at = r.at;
      member = there r.member;
      last = ((t, h, trans t u r.time le (same r.last.0)), r.last);
    }
      where
        same : NotLater r.time v → c.later u r.time ≡ false
        same (w, f, g) = subst (λ x. c.later x r.time ≡ false) (some-injective _ _ (sym f ∙ k)) g

    -- A date behind the latest one so far.
    behind :
        (l v : Str) (vs : List Str) (t u : c.Time) (m : Str)
        → c.get_time l ≡ some t
        → c.get_time v ≡ some u
        → c.later u t ≡ false
        → IsLatest (l ∷ vs) m
        → IsLatest (l ∷ v ∷ vs) m
    behind l v vs t u m h k le r = record {
      time = r.time;
      at = r.at;
      member = Mem-insert m l v vs r.member;
      last = (r.last.0, ((u, k, trans u t r.time le (same r.last.0)), r.last.1));
    }
      where
        same : NotLater r.time l → c.later t r.time ≡ false
        same (w, f, g) = subst (λ x. c.later x r.time ≡ false) (some-injective _ _ (sym f ∙ h)) g

    latest_event-IsLatest :
        (l : Str) (items : List Item)
        → IsDate l
        → All IsDate (created items)
        → (m : Str) × (latest_event c (some l) items ≡ some m) × IsLatest (l ∷ created items) m
    unfolding latest_event
    latest_event-IsLatest l [] (t, h) hs =
        (l, refl, record { time = t; at = h; member = here; last = ((t, h, later_irrefl t), tt) })
    latest_event-IsLatest l (item ∷ items) (t, h) ((u, k), hs) =
        rw (later_of_dates l item.created_at t u h k) (
          if_split
            (λ (o : Option Str).
              (m : Str) × (latest_event c o items ≡ some m)
              × IsLatest (l ∷ item.created_at ∷ created items) m)
            (c.later u t)
            (λ e.
              let (m, q, r) = latest_event-IsLatest item.created_at items (u, k) hs in
              (m, q, in_front l item.created_at (created items) t u m h k (asym u t e) r))
            (λ e.
              let (m, q, r) = latest_event-IsLatest l items (t, h) hs in
              (m, q, behind l item.created_at (created items) t u m h k e r)))

    -- With every event's date a date, the empty text none, and dates ordered by `later`, the
    -- summary of a log that is not empty shows as latest event one of the events' dates, which no
    -- event's date is later than.
    pub summarize-IsLatest :
        (item : Item) (items : List Item)
        → All IsDate (created (item ∷ items))
        → (m : Str) × ((summarize_audit_logs c (item ∷ items)).latest_event ≡ some m)
          × IsLatest (created (item ∷ items)) m
    unfolding summarize_audit_logs latest_event later_of
    summarize-IsLatest item items (h, hs) = latest_event-IsLatest item.created_at items h hs

  -- The summary of the audit log counts, for the admins and for the types of targets, the texts of
  -- a list that has no text twice and has exactly the texts of the events that are not empty.
  summarize-IsSetOf :
      (items : List Item)
      → ((admins : List Str) × IsSetOf (admin_ids items) admins
          × ((summarize_audit_logs c items).unique_admins ≡ length admins))
        × ((types : List Str) × IsSetOf (target_types items) types
            × ((summarize_audit_logs c items).unique_target_types ≡ length types))
  unfolding summarize_audit_logs
  summarize-IsSetOf items = (
    (distinct (admin_ids items), distinct-IsSetOf (admin_ids items), refl),
    (distinct (target_types items), distinct-IsSetOf (target_types items), refl),
  )

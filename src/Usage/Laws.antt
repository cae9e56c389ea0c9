-- ===== src/Usage/Laws.antt =====
-- The usage page of a customer: what it asks for, and how a date that is none stops it.
use slai.Base.{
  ℕ, ◌≡◌, refl, Bool, true, false, List, [], ◌∷◌, none, ap, if◌then◌else◌, arith, ◌||◌, ◌&&◌, ◌+◌,
  ◌-◌, ◌==◌, ltb, length,
}
use slai.Text.{Str, truthy}
use slai.Dates.{Calendar, thrown, iso_unless_empty, to_iso}
use slai.Usage.{
  Page, Result, Action, applied, cleared, refreshed, retried, went_back, went_on, edited, selected,
  Filters, filters_to_query, validate_filters, limit, is_some, load, apply_filters, clear_filters,
  step, run,
}

-- Loading, with no error on the screen.
pub record Stuck (s : Page) : Type 0 where
  pub loading : s.loading ≡ true
  pub error : s.error ≡ none

and_false : (b : Bool) → (b && false) ≡ false
and_false b = ground arith

or_true : {a : Bool} (b : Bool) → a ≡ true → (a || b) ≡ true
or_true b h = ground (arith, h)

abbrev StaysStuck : Result → Type 0
StaysStuck r = Stuck r.0 × (r.1 ≡ [])

disabled-Stuck :
    (b : Bool) (s : Page) (r : Result) → b ≡ true → Stuck s → StaysStuck (if b then (s, []) else r)
disabled-Stuck true s r e h = (h, refl)
disabled-Stuck false s r e h = ground (arith, e)

hidden-Stuck :
    (b : Bool) (s : Page) (r : Result) → b ≡ false → Stuck s → StaysStuck (if b then r else (s, []))
hidden-Stuck true s r e h = ground (arith, e)
hidden-Stuck false s r e h = (h, refl)

module _ (c : Calendar) where
  step-Stuck : (s : Page) (a : Action) → Stuck s → StaysStuck (step c s a)
  unfolding step
  step-Stuck s applied h = disabled-Stuck s.loading s (apply_filters c s) h.loading h
  step-Stuck s cleared h = disabled-Stuck s.loading s (clear_filters c s) h.loading h
  step-Stuck s refreshed h =
      disabled-Stuck s.loading s (load c s.offset s.applied_filters s) h.loading h
  step-Stuck s retried h =
      hidden-Stuck (is_some s.error) s (load c s.offset s.applied_filters s) (ap is_some h.error) h
  step-Stuck s went_back h =
      disabled-Stuck (s.loading || (is_some s.error || (length s.usage == 0 || s.offset == 0))) s
        (load c (s.offset - limit) s.applied_filters s) (or_true _ h.loading) h
  step-Stuck s went_on h =
      disabled-Stuck (s.loading || (is_some s.error || ltb (length s.usage) limit)) s
        (load c (s.offset + limit) s.applied_filters s) (or_true _ h.loading) h
  step-Stuck s (edited f) h = (record { loading = h.loading; error = h.error }, refl)
  step-Stuck s (selected e) h = (record { loading = h.loading; error = h.error }, refl)

  run-Stuck : (s : Page) (actions : List Action) → Stuck s → StaysStuck (run c s actions)
  unfolding run
  run-Stuck s [] h = (h, refl)
  run-Stuck s (a ∷ actions) h =
      let (k, none_asked) = step-Stuck s a h in
      let (l, none_later) = run-Stuck (step c s a).0 actions k in
      (l, rw (none_asked, none_later) refl)

  module _ (f : Filters) (x : ℕ) (rest : Str) (from : f.from ≡ x ∷ rest)
      (invalid : c.get_time (x ∷ rest) ≡ none) where
    invalid-passes : validate_filters c f ≡ none
    unfolding validate_filters
    invalid-passes = rw (from, invalid, and_false (truthy f.to)) refl

    invalid-throws : filters_to_query c f 0 ≡ thrown
    unfolding filters_to_query iso_unless_empty to_iso
    invalid-throws = rw (from, invalid) refl

  apply-Stuck :
      (s : Page)
      → s.loading ≡ false
      → validate_filters c s.draft_filters ≡ none
      → filters_to_query c s.draft_filters 0 ≡ thrown
      → StaysStuck (step c s applied)
  unfolding step apply_filters load
  apply-Stuck s idle passes throws =
      rw (idle, passes, passes, throws) (record { loading = refl; error = refl }, refl)

  -- On a page that is not loading, with a start of the range that is not empty and no date: after
  -- Apply, and whatever the user does on the page from there, the page is loading, with no error
  -- on the screen, and it has asked for no list.
  pub invalid_date-Stuck :
      (s : Page) (x : ℕ) (rest : Str) (actions : List Action)
      → s.loading ≡ false
      → s.draft_filters.from ≡ x ∷ rest
      → c.get_time (x ∷ rest) ≡ none
      → let r = run c s (applied ∷ actions) in Stuck r.0 × (r.1 ≡ [])
  unfolding run
  invalid_date-Stuck s x rest actions idle from invalid =
      let (k, none_asked) =
        apply-Stuck s idle (invalid-passes s.draft_filters x rest from invalid)
          (invalid-throws s.draft_filters x rest from invalid) in
      let (l, none_later) = run-Stuck (step c s applied).0 actions k in
      (l, rw (none_asked, none_later) refl)

-- ===== src/Usage.antt =====
-- The customer's usage events, apps/web/src/app/dashboard/usage/page.tsx: `UsagePage`. An answer to
-- a list is an event of its own.
pub mod Laws
use slai.Base.{
  ℕ, ◌+◌, ◌-◌, ltb, ◌==◌, Bool, true, false, not, ◌&&◌, ◌||◌, List, [], ◌∷◌, ◌++◌, Option, none,
  some, String, if◌then◌else◌, str_eq, length, sum_of, filter_by,
}
use slai.Text.{Str, trim, truthy, trimmed, if_truthy}
use slai.Api.Errors.{Outcome, resolved, rejected, readable_error}
use slai.Dates.{Calendar, Checked, returned, thrown, iso_unless_empty, is_later}
use slai.AdminUsage.{Event, Tone, green, blue, neutral, yellow, red}

abbrev pub limit : ℕ
limit = 50

-- `FilterState`
pub record Filters : Type 0 where
  pub model : Str
  pub status : Str
  pub from : Str
  pub to : Str

abbrev pub empty_filters : Filters
empty_filters = record { model = []; status = []; from = []; to = [] }

-- `UserUsageFilter`
pub record Query : Type 0 where
  pub model : Option Str
  pub status : Option Str
  pub from : Option Str
  pub to : Option Str
  pub limit : ℕ
  pub offset : ℕ

unfoldable pub status_tone : String → Tone
status_tone status =
    if str_eq status "billed"
    then green
    else if str_eq status "failed"
    then red
    else if str_eq status "ignored"
    then yellow
    else if str_eq status "pending"
    then blue
    else neutral

unfoldable pub has_active_filters : Filters → Bool
unfolding trim
has_active_filters f =
    truthy (trim f.model) || truthy (trim f.status) || truthy (trim f.from) || truthy (trim f.to)

-- `UsagePage`'s `summary`
pub record Summary : Type 0 where
  pub input : ℕ
  pub output : ℕ
  pub total_tokens : ℕ
  pub cost : ℕ
  pub exceptions : ℕ

abbrev is_exception : Event → Bool
is_exception event = str_eq event.status "failed" || str_eq event.status "ignored"

unfoldable pub summary : List Event → Summary
summary usage =
    let input = sum_of (λ e. e.input_tokens) usage in
    let output = sum_of (λ e. e.output_tokens) usage in
    record {
      input = input;
      output = output;
      total_tokens = input + output;
      cost = sum_of (λ e. e.cost_units) usage;
      exceptions = length (filter_by is_exception usage);
    }

pub record Page : Type 0 where
  pub usage : List Event
  pub offset : ℕ
  pub draft_filters : Filters
  pub applied_filters : Filters
  pub validation_error : Option String
  pub selected_event : Option Event
  pub loading : Bool
  pub error : Option String

unfoldable pub initial : Page
initial = record {
  usage = [];
  offset = 0;
  draft_filters = empty_filters;
  applied_filters = empty_filters;
  validation_error = none;
  selected_event = none;
  loading = true;
  error = none;
}

-- The page after a handler, and the lists that it asked for.
abbrev pub Result : Type 0
Result = Page × List Query

-- The answer to the list at `next_offset`.
unfoldable pub loaded : (next_offset : ℕ) → Outcome (List Event) → Page → Page
loaded next_offset (resolved usage) s = record s {
  usage = usage;
  offset = next_offset;
  loading = false;
}
loaded next_offset (rejected e) s = record s { error = some (readable_error e); loading = false }

abbrev pub is_some {ℓ} : {A : Type ℓ} → Option A → Bool
is_some none = false
is_some (some a) = true

pub data Action : Type 0 where
  applied cleared refreshed retried went_back went_on : Action
  edited : Filters → Action
  selected : Option Event → Action

module _ (c : Calendar) where
  abbrev with_dates : Filters → ℕ → Checked (Option Str) → Checked (Option Str) → Checked Query
  with_dates f offset (returned from) (returned to) = returned (record {
    model = trimmed (some f.model);
    status = if_truthy f.status;
    from = from;
    to = to;
    limit = limit;
    offset = offset;
  })
  with_dates f offset thrown to = thrown
  with_dates f offset (returned from) thrown = thrown

  unfoldable pub filters_to_query : Filters → (offset : ℕ) → Checked Query
  unfolding iso_unless_empty trimmed
  filters_to_query f offset =
      with_dates f offset (iso_unless_empty c f.from) (iso_unless_empty c f.to)

  -- A comparison with the time of an invalid date is false.
  unfoldable pub validate_filters : Filters → Option String
  validate_filters f =
      if truthy f.from && (truthy f.to && is_later c (c.get_time f.from) (c.get_time f.to))
      then some "From date/time must be before To date/time."
      else none

  abbrev pub ask : Checked Query → Page → Result
  ask (returned query) s = (s, query ∷ [])
  ask thrown s = (s, [])

  -- The error of `filtersToQuery` leaves `load` before a promise is there to settle.
  abbrev pub load_valid : Option String → Checked Query → Page → Result
  load_valid (some message) query s = (record s { validation_error = some message }, [])
  load_valid none query s =
      ask query (record s { validation_error = none; loading = true; error = none })

  unfoldable pub load : (next_offset : ℕ) → Filters → Page → Result
  unfolding validate_filters filters_to_query
  load next_offset f s = load_valid (validate_filters f) (filters_to_query f next_offset) s

  abbrev pub apply_valid : Option String → Page → Result
  unfolding load
  apply_valid (some message) s = (record s { validation_error = some message }, [])
  apply_valid none s = load 0 s.draft_filters (record s { applied_filters = s.draft_filters })

  unfoldable pub apply_filters : Page → Result
  unfolding load validate_filters
  apply_filters s = apply_valid (validate_filters s.draft_filters) s

  unfoldable pub clear_filters : Page → Result
  unfolding load
  clear_filters s = load 0 empty_filters (record s {
    draft_filters = empty_filters;
    applied_filters = empty_filters;
    validation_error = none;
  })

  -- `useEffect` when the page opens.
  unfoldable pub open_page : Page → Result
  unfolding load
  open_page s = load 0 empty_filters s

  -- A button that is disabled or not shown has no effect: Retry is shown with an error, and the
  -- paging below a list of events.
  unfoldable pub step : Page → Action → Result
  unfolding load apply_filters clear_filters
  step s applied = if s.loading then (s, []) else apply_filters s
  step s cleared = if s.loading then (s, []) else clear_filters s
  step s refreshed = if s.loading then (s, []) else load s.offset s.applied_filters s
  step s retried = if is_some s.error then load s.offset s.applied_filters s else (s, [])
  step s went_back =
      if s.loading || (is_some s.error || (length s.usage == 0 || s.offset == 0))
      then (s, [])
      else load (s.offset - limit) s.applied_filters s
  step s went_on =
      if s.loading || (is_some s.error || ltb (length s.usage) limit)
      then (s, [])
      else load (s.offset + limit) s.applied_filters s
  step s (edited f) = (record s { draft_filters = f }, [])
  step s (selected event) = (record s { selected_event = event }, [])

  -- What a user does while no answer comes.
  unfoldable pub run : Page → List Action → Result
  unfolding step
  run s [] = (s, [])
  run s (a ∷ actions) =
      let (t, queries) = step s a in let (u, more) = run t actions in (u, queries ++ more)

-- ===== src/Audit/Page.antt =====
-- The state and the handlers of `AdminAuditPage`. A list is asked for without waiting, so that its
-- answer is an event of its own. The time of a quick range, its earlier end and the local fields of
-- a date are the platform's.
pub mod Laws
use slai.Base.{
  ℕ, ◌+◌, ◌-◌, Bool, true, false, not, ◌&&◌, ◌||◌, List, [], ◌∷◌, Option, none, some, String,
  if◌then◌else◌, length, ltb,
}
use slai.Text.{Str}
use slai.Api.Errors.{Outcome, resolved, rejected, readable_error}
use slai.Dates.{Calendar, Checked, returned, thrown}
use slai.Audit.{
  Item, Logs, Form, empty_form, Filter, empty_request, normalize_request, form_to_request,
  validate_range, limit, active_filter_labels, pagination, DateFields, to_datetime_local_value,
}

pub record Page : Type 0 where
  pub data_ : Option Logs
  pub filters : Filter
  pub form_filters : Form
  pub selected_log : Option Item
  pub loading : Bool
  pub error : Option String
  pub filter_error : Option String

unfoldable pub initial : Page
initial = record {
  data_ = none;
  filters = empty_request;
  form_filters = empty_form;
  selected_log = none;
  loading = true;
  error = none;
  filter_error = none;
}

-- The page after a handler, and the lists that it asked for.
abbrev pub Result : Type 0
Result = Page × List Filter

-- `load`, up to its request.
unfoldable pub load : Filter → Page → Result
unfolding normalize_request
load next_filters s =
    (record s { loading = true; error = none }, normalize_request next_filters ∷ [])

-- The answer to the request with the filter `normalized`.
unfoldable pub loaded : (normalized : Filter) → Outcome Logs → Page → Page
loaded normalized (resolved response) s = record s {
  data_ = some response;
  filters = normalized;
  loading = false;
}
loaded normalized (rejected e) s = record s { error = some (readable_error e); loading = false }

-- A `RangeError` of `toISOString` ends the handler where it stands.
abbrev pub load_checked : Checked Filter → Page → Result
load_checked (returned filter) s = load filter s
load_checked thrown s = (s, [])

abbrev pub apply_checked : Option String → Checked Filter → Page → Result
apply_checked (some message) filter s = (record s { filter_error = some message }, [])
apply_checked none filter s = load_checked filter (record s { filter_error = none })

-- `data?.items ?? []`, `data?.offset ?? 0`, `data?.limit ?? LIMIT` and `data?.total ?? 0`
abbrev pub logs_of : Option Logs → Logs
logs_of none = record { items = []; limit = limit; offset = 0; total = 0 }
logs_of (some response) = response

unfoldable pub clear_filters : Page → Result
unfolding load
clear_filters s = load empty_request (record s { form_filters = empty_form; filter_error = none })

unfoldable pub refresh : Page → Result
unfolding load
refresh s = load s.filters s

unfoldable pub go_to_offset : ℕ → Page → Result
unfolding load
go_to_offset offset s = load (record (s.filters) { limit = some limit; offset = some offset }) s

abbrev pub has_filters : Filter → Bool
unfolding active_filter_labels
has_filters filters = elim (active_filter_labels (λ s. s) filters) [ [] ↦ false | _ ∷ _ ↦ true ]

abbrev pub pages : Page → slai.Audit.Pages
pages s =
    let logs = logs_of s.data_ in
    pagination (length logs.items) logs.limit logs.offset logs.total s.loading

abbrev pub is_some {ℓ} : {A : Type ℓ} → Option A → Bool
is_some none = false
is_some (some a) = true

-- Paging is shown below a list that has rows, when nothing is loading and no error is shown.
abbrev pub shows_pages : Page → Bool
shows_pages s = not s.loading && (not (is_some s.error) && ltb 0 (length (logs_of s.data_).items))

module _ (c : Calendar) (days_before : c.Time → ℕ → c.Time)
    (date_fields : c.Time → DateFields) where
  unfoldable pub apply_filters : Page → Result
  unfolding load validate_range form_to_request
  apply_filters s =
      apply_checked (validate_range c s.form_filters) (form_to_request c s.form_filters 0) s

  abbrev pub local_value : c.Time → Str
  local_value t = to_datetime_local_value (date_fields t)

  unfoldable pub quick_form : (now : c.Time) (days : ℕ) → Form → Form
  unfolding to_datetime_local_value
  quick_form now days form = record form {
    from = local_value (days_before now days);
    to = local_value now;
  }

  unfoldable pub apply_quick_range : (now : c.Time) (days : ℕ) → Page → Result
  unfolding load form_to_request quick_form
  apply_quick_range now days s =
      let next_form = quick_form now days s.form_filters in
      load_checked (form_to_request c next_form 0)
        (record s { form_filters = next_form; filter_error = none })

  pub data Action : Type 0 where
    opened applied cleared refreshed retried went_back went_on : Action
    quick_range : (now : c.Time) (days : ℕ) → Action
    edited : Form → Action
    selected : Option Item → Action

  -- A button that is disabled or not shown has no effect.
  unfoldable pub step : Page → Action → Result
  unfolding apply_filters apply_quick_range clear_filters refresh go_to_offset load
  step s opened = load empty_request s
  step s applied = if s.loading then (s, []) else apply_filters s
  step s cleared = if s.loading && not (has_filters s.filters) then (s, []) else clear_filters s
  step s refreshed = if s.loading then (s, []) else refresh s
  step s retried = if is_some s.error then load s.filters s else (s, [])
  step s went_back =
      if shows_pages s && (pages s).can_go_back
      then go_to_offset ((logs_of s.data_).offset - (logs_of s.data_).limit) s
      else (s, [])
  step s went_on =
      if shows_pages s && (pages s).can_go_on
      then go_to_offset ((logs_of s.data_).offset + (logs_of s.data_).limit) s
      else (s, [])
  step s (quick_range now days) = if s.loading then (s, []) else apply_quick_range now days s
  step s (edited form) = (record s { form_filters = form }, [])
  step s (selected log) = (record s { selected_log = log }, [])

-- ===== src/AdminUsage/Page.antt =====
-- The state and the handlers of `AdminUsagePage`. A list is asked for without waiting, and so is a
-- synchronisation: its answer comes with the filters of the moment at which it was started, since
-- `syncUsage` reads them in the render of its click.
pub mod Laws
pub mod Runs
use slai.Base.{
  ℕ, ◌+◌, ◌-◌, Bool, true, false, not, ◌&&◌, ◌||◌, List, [], ◌∷◌, ◌++◌, Option, none, some, String,
  if◌then◌else◌, length, ltb,
}
use slai.Text.{Str}
use slai.Api.Errors.{Failure, Outcome, resolved, rejected, readable_error}
use slai.Dates.{Calendar, Checked, returned, thrown}
use slai.Sync.{SyncResult, sync_summary_text}
use slai.AdminUsage.{
  Event, Form, empty_form, Filter, first_page, normalize, form_filters_to_api_filter,
  validate_date_range, limit, or_default, pagination, active_filter_labels,
}

pub record Page : Type 0 where
  pub usage : List Event
  pub filters : Filter
  pub form_filters : Form
  pub selected_event : Option Event
  pub loading : Bool
  pub syncing : Bool
  pub error : Option String
  pub filter_error : Option String
  pub notice : Option Str

pub data Call : Type 0 where
  list_usage : Filter → Call
  sync_usage : (filters : Filter) → Call

unfoldable pub initial : Page
initial = record {
  usage = [];
  filters = first_page;
  form_filters = empty_form;
  selected_event = none;
  loading = true;
  syncing = false;
  error = none;
  filter_error = none;
  notice = none;
}

-- `load`, up to its request.
unfoldable pub load : Filter → Page → Page × List Call
unfolding normalize
load next_filters s =
    (record s { loading = true; error = none }, list_usage (normalize next_filters) ∷ [])

-- The answer to the request with the filter `normalized`.
unfoldable pub loaded : (normalized : Filter) → Outcome (List Event) → Page → Page
loaded normalized (resolved usage) s = record s {
  usage = usage;
  filters = normalized;
  loading = false;
}
loaded normalized (rejected e) s = record s { error = some (readable_error e); loading = false }

-- A `RangeError` of `toISOString` ends the handler where it stands.
abbrev pub load_checked : Checked Filter → Page → Page × List Call
load_checked (returned filter) s = load filter s
load_checked thrown s = (s, [])

abbrev pub apply_checked : Option String → Checked Filter → Page → Page × List Call
apply_checked (some message) filter s = (record s { filter_error = some message }, [])
apply_checked none filter s = load_checked filter (record s { filter_error = none; notice = none })

abbrev pub offset_of : Page → ℕ
offset_of s = or_default (s.filters.offset) 0

abbrev pub has_filters : Filter → Bool
unfolding active_filter_labels
has_filters filters = elim (active_filter_labels (λ s. s) filters) [ [] ↦ false | _ ∷ _ ↦ true ]

unfoldable pub clear_filters : Page → Page × List Call
unfolding load
clear_filters s =
    load first_page (record s { form_filters = empty_form; filter_error = none; notice = none })

unfoldable pub refresh : Page → Page × List Call
unfolding load
refresh s = load s.filters (record s { notice = none })

unfoldable pub start_sync : Page → Page × List Call
start_sync s = (record s { syncing = true; error = none; notice = none }, sync_usage s.filters ∷ [])

unfoldable pub go_to_offset : ℕ → Page → Page × List Call
unfolding load
go_to_offset offset s =
    load (record (s.filters) { offset = some offset; limit = some limit })
      (record s { notice = none })

abbrev pub idle : Page × List Call → Page × List Call
idle r = (record (r.0) { syncing = false }, r.1)

abbrev pub is_some {ℓ} : {A : Type ℓ} → Option A → Bool
is_some none = false
is_some (some a) = true

-- Paging is shown below a list that has rows, when nothing is loading and no error is shown.
abbrev pub shows_pages : Page → Bool
shows_pages s = not s.loading && (not (is_some s.error) && ltb 0 (length s.usage))

pub data Action : Type 0 where
  opened applied cleared refreshed retried sync_started went_back went_on : Action
  edited : Form → Action
  selected : Option Event → Action
  sync_answered : (filters : Filter) → Outcome SyncResult → Action

module _ (c : Calendar) (format_units : ℕ → Str) where
  unfoldable pub apply_filters : Page → Page × List Call
  unfolding load validate_date_range form_filters_to_api_filter
  apply_filters s =
      apply_checked (validate_date_range c s.form_filters)
        (form_filters_to_api_filter c s.form_filters 0) s

  -- `filters` are those that `syncUsage` has kept since its click.
  unfoldable pub finish_sync : (filters : Filter) → Outcome SyncResult → Page → Page × List Call
  unfolding load sync_summary_text
  finish_sync filters (resolved r) s = idle (
      load (record filters { offset = some 0 })
        (record s { notice = some (sync_summary_text format_units r) }))
  finish_sync filters (rejected e) s =
      (record s { error = some (readable_error e); syncing = false }, [])

  -- A button that is disabled or not shown has no effect.
  unfoldable pub step : Page → Action → Page × List Call
  unfolding apply_filters clear_filters refresh start_sync go_to_offset finish_sync load
  step s opened = load first_page s
  step s applied = if s.loading then (s, []) else apply_filters s
  step s cleared = if s.loading && not (has_filters s.filters) then (s, []) else clear_filters s
  step s refreshed = if s.loading || s.syncing then (s, []) else refresh s
  step s retried = if is_some s.error then load s.filters s else (s, [])
  step s sync_started = if s.loading || s.syncing then (s, []) else start_sync s
  step s went_back =
      if shows_pages s && (pagination (length s.usage) limit (offset_of s) s.loading).can_go_back
      then go_to_offset (offset_of s - limit) s
      else (s, [])
  step s went_on =
      if shows_pages s && (pagination (length s.usage) limit (offset_of s) s.loading).can_go_on
      then go_to_offset (offset_of s + limit) s
      else (s, [])
  step s (edited form) = (record s { form_filters = form }, [])
  step s (selected event) = (record s { selected_event = event }, [])
  step s (sync_answered filters answer) = finish_sync filters answer s

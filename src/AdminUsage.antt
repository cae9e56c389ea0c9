-- ===== src/AdminUsage.antt =====
-- The admin's usage events, apps/web/src/app/admin/usage/page.tsx: the helpers of `AdminUsagePage`.
-- Formats of dates and of grouped numbers are arguments.
pub mod Laws
pub mod Page
pub mod View
use slai.Base.{
  ℕ, ◌+◌, ◌==◌, ltb, Bool, true, false, not, ◌&&◌, ◌||◌, List, [], ◌∷◌, ◌++◌, Option, none, some,
  String, if◌then◌else◌, str_eq, codes,
}
use slai.Text.{Str, trim, truthy, has_text, trimmed}
use slai.Format.{truncate_id}
use slai.Redact.{Fields}
use slai.Dates.{Calendar, Checked, returned, thrown, iso_unless_empty}

-- The fields of `UsageEvent` that the page reads.
pub record Event : Type 0 where
  pub id : String
  pub user_id : Str
  pub api_key_id : Str
  pub external_source : String
  pub external_event_id : String
  pub omniroute_key_id : Option Str
  pub model : Option String
  pub provider : Option String
  pub input_tokens : ℕ
  pub output_tokens : ℕ
  pub total_tokens : ℕ
  pub cost_units : ℕ
  pub status : String
  pub occurred_at : String
  pub raw_json : Option Fields
  pub created_at : String

abbrev pub limit : ℕ
limit = 50

pub record Form : Type 0 where
  pub user_id : Str
  pub api_key_id : Str
  pub model : Str
  pub provider : Str
  pub status : Str
  pub from : Str
  pub to : Str

abbrev pub empty_form : Form
empty_form = record {
  user_id = [];
  api_key_id = [];
  model = [];
  provider = [];
  status = [];
  from = [];
  to = [];
}

-- `UsageFilter`
pub record Filter : Type 0 where
  pub user_id : Option Str
  pub api_key_id : Option Str
  pub model : Option Str
  pub provider : Option Str
  pub status : Option Str
  pub from : Option Str
  pub to : Option Str
  pub limit : Option ℕ
  pub offset : Option ℕ

-- `{ limit: LIMIT, offset: 0 }`
abbrev pub first_page : Filter
first_page = record {
  user_id = none;
  api_key_id = none;
  model = none;
  provider = none;
  status = none;
  from = none;
  to = none;
  limit = some limit;
  offset = some 0;
}

-- `value ?? fallback`
abbrev pub or_default : Option ℕ → ℕ → ℕ
or_default none n = n
or_default (some m) n = m

unfoldable pub normalize : Filter → Filter
normalize filter = record {
  user_id = trimmed filter.user_id;
  api_key_id = trimmed filter.api_key_id;
  model = trimmed filter.model;
  provider = trimmed filter.provider;
  status = trimmed filter.status;
  from = trimmed filter.from;
  to = trimmed filter.to;
  limit = some (or_default filter.limit limit);
  offset = some (or_default filter.offset 0);
}

module _ (c : Calendar) where
  abbrev pub with_dates : Form → ℕ → Checked (Option Str) → Checked (Option Str) → Checked Filter
  with_dates form offset (returned from) (returned to) = returned (
      normalize (record {
        user_id = trimmed (some form.user_id);
        api_key_id = trimmed (some form.api_key_id);
        model = trimmed (some form.model);
        provider = trimmed (some form.provider);
        status = trimmed (some form.status);
        from = from;
        to = to;
        limit = some limit;
        offset = some offset;
      }))
  with_dates form offset thrown to = thrown
  with_dates form offset (returned from) thrown = thrown

  unfoldable pub form_filters_to_api_filter : Form → (offset : ℕ) → Checked Filter
  unfolding normalize iso_unless_empty
  form_filters_to_api_filter form offset =
      with_dates form offset (iso_unless_empty c form.from) (iso_unless_empty c form.to)

  unfoldable pub check_range : Option (c.Time) → Option (c.Time) → Option String
  check_range none _ = some "Use valid from and to date/time values."
  check_range (some from) none = some "Use valid from and to date/time values."
  check_range (some from) (some to) =
      if c.later from to
      then some "From date/time must be before or equal to To date/time."
      else none

  unfoldable pub validate_date_range : Form → Option String
  unfolding check_range
  validate_date_range form =
      if not (truthy form.from) || not (truthy form.to)
      then none
      else check_range (c.get_time form.from) (c.get_time form.to)

pub record Summary : Type 0 where
  pub billed : ℕ
  pub pending : ℕ
  pub failed : ℕ
  pub ignored : ℕ
  pub input_tokens : ℕ
  pub output_tokens : ℕ
  pub total_tokens : ℕ
  pub cost_units : ℕ

abbrev pub count_if : String → String → ℕ
count_if status name = if str_eq status name then 1 else 0

unfoldable pub add_event : Summary → Event → Summary
add_event summary event = record {
  billed = summary.billed + count_if event.status "billed";
  pending = summary.pending + count_if event.status "pending";
  failed = summary.failed + count_if event.status "failed";
  ignored = summary.ignored + count_if event.status "ignored";
  input_tokens = summary.input_tokens + event.input_tokens;
  output_tokens = summary.output_tokens + event.output_tokens;
  total_tokens = summary.total_tokens + event.total_tokens;
  cost_units = summary.cost_units + event.cost_units;
}

abbrev pub no_usage : Summary
no_usage = record {
  billed = 0;
  pending = 0;
  failed = 0;
  ignored = 0;
  input_tokens = 0;
  output_tokens = 0;
  total_tokens = 0;
  cost_units = 0;
}

unfoldable pub reduce_usage : Summary → List Event → Summary
unfolding add_event
reduce_usage summary [] = summary
reduce_usage summary (event ∷ events) = reduce_usage (add_event summary event) events

unfoldable pub summarize_usage : List Event → Summary
unfolding reduce_usage
summarize_usage events = reduce_usage no_usage events

-- A label for a filter that is set: its name, and the value as `show` writes it.
abbrev pub label : String → (show : Str → Str) → Option Str → List Str
label name show none = []
label name show (some []) = []
label name show (some (c ∷ s)) = (codes name ++ show (c ∷ s)) ∷ []

abbrev pub as_it_is : Str → Str
as_it_is s = s

abbrev pub short_id : Str → Str
short_id s = truncate_id (some s) 8 4

unfoldable pub active_filter_labels : (format_date : Str → Str) → Filter → List Str
unfolding truncate_id
active_filter_labels format_date filter =
    label "user:" short_id filter.user_id
    ++ label "key:" short_id filter.api_key_id
    ++ label "model:" as_it_is filter.model
    ++ label "provider:" as_it_is filter.provider
    ++ label "status:" as_it_is filter.status
    ++ label "from:" format_date filter.from
    ++ label "to:" format_date filter.to

pub data Tone : Type 0 where
  green blue neutral yellow red : Tone

unfoldable pub usage_status_tone : String → Tone
usage_status_tone status =
    if str_eq status "billed"
    then green
    else if str_eq status "pending"
    then blue
    else if str_eq status "duplicate"
    then neutral
    else if str_eq status "ignored"
    then yellow
    else if str_eq status "failed"
    then red
    else neutral

-- What `Pagination` shows of a page of `count` rows.
pub record Pages : Type 0 where
  pub start : ℕ
  pub end_ : ℕ
  pub more : Bool
  pub can_go_back : Bool
  pub can_go_on : Bool

unfoldable pub pagination : (count limit offset : ℕ) (loading : Bool) → Pages
pagination count limit offset loading = record {
  start = if count == 0 then 0 else offset + 1;
  end_ = offset + count;
  more = count == limit;
  can_go_back = not (offset == 0 || loading);
  can_go_on = not (ltb count limit || loading);
}

-- ===== src/Audit.antt =====
-- The admin's audit log, apps/web/src/app/admin/audit/page.tsx: the helpers of `AdminAuditPage`.
-- Formats of dates, the fields of a local date and the case mappings of strings are arguments.
pub mod Laws
pub mod Page
pub mod View
use slai.Base.{
  ℕ, ◌+◌, ltb, leb, ◌==◌, Bool, true, false, not, ◌&&◌, ◌||◌, List, [], ◌∷◌, ◌++◌, Option, none,
  some, String, if◌then◌else◌, str_eq, codes, length,
}
use slai.Redact.{Fields}
use slai.Text.{Str, truthy, trimmed, includes, equals}
use slai.Text.Decimal.{to_digits, split}
use slai.Dates.{Calendar, Checked, returned, thrown, iso_unless_empty, is_later}
use slai.AdminUsage.{
  check_range, or_default, label, as_it_is, short_id, Tone, green, blue, neutral, yellow, red,
}

-- `AuditLogItem`, less its payload.
pub record Item : Type 0 where
  pub id : String
  pub admin_id : Str
  pub admin_email : String
  pub action : Str
  pub target_type : Option Str
  pub target_id : Option Str
  pub metadata : Option Fields
  pub created_at : Str

-- `AuditLogListResponse`
pub record Logs : Type 0 where
  pub items : List Item
  pub limit : ℕ
  pub offset : ℕ
  pub total : ℕ

abbrev pub limit : ℕ
limit = 50

-- The texts of the filter form; its limit and offset are never read.
pub record Form : Type 0 where
  pub admin_id : Str
  pub action : Str
  pub target_type : Str
  pub target_id : Str
  pub from : Str
  pub to : Str

abbrev pub empty_form : Form
empty_form = record {
  admin_id = [];
  action = [];
  target_type = [];
  target_id = [];
  from = [];
  to = [];
}

-- `AuditLogFilter` as a request has it.
pub record Filter : Type 0 where
  pub admin_id : Option Str
  pub action : Option Str
  pub target_type : Option Str
  pub target_id : Option Str
  pub from : Option Str
  pub to : Option Str
  pub limit : Option ℕ
  pub offset : Option ℕ

abbrev pub empty_request : Filter
empty_request = record {
  admin_id = none;
  action = none;
  target_type = none;
  target_id = none;
  from = none;
  to = none;
  limit = some limit;
  offset = some 0;
}

unfoldable pub normalize_request : Filter → Filter
normalize_request filters = record {
  admin_id = trimmed filters.admin_id;
  action = trimmed filters.action;
  target_type = trimmed filters.target_type;
  target_id = trimmed filters.target_id;
  from = trimmed filters.from;
  to = trimmed filters.to;
  limit = some (or_default filters.limit limit);
  offset = some (or_default filters.offset 0);
}

module _ (c : Calendar) where
  abbrev pub with_dates : Form → ℕ → Checked (Option Str) → Checked (Option Str) → Checked Filter
  with_dates form offset (returned from) (returned to) = returned (
      normalize_request (record {
        admin_id = trimmed (some form.admin_id);
        action = trimmed (some form.action);
        target_type = trimmed (some form.target_type);
        target_id = trimmed (some form.target_id);
        from = from;
        to = to;
        limit = some limit;
        offset = some offset;
      }))
  with_dates form offset thrown to = thrown
  with_dates form offset (returned from) thrown = thrown

  unfoldable pub form_to_request : Form → (offset : ℕ) → Checked Filter
  unfolding normalize_request iso_unless_empty
  form_to_request form offset =
      with_dates form offset (iso_unless_empty c form.from) (iso_unless_empty c form.to)

  unfoldable pub validate_range : Form → Option String
  unfolding check_range
  validate_range form =
      if not (truthy form.from) || not (truthy form.to)
      then none
      else check_range c (c.get_time form.from) (c.get_time form.to)

  unfoldable pub later_of : Option Str → Str → Option Str
  later_of none created_at = some created_at
  later_of (some []) created_at = some created_at
  later_of (some (x ∷ latest)) created_at =
      if is_later c (c.get_time created_at) (c.get_time (x ∷ latest))
      then some created_at
      else some (x ∷ latest)

  unfoldable pub latest_event : Option Str → List Item → Option Str
  unfolding later_of
  latest_event latest [] = latest
  latest_event latest (item ∷ items) = latest_event (later_of latest item.created_at) items

unfoldable pub member : Str → List Str → Bool
member x [] = false
member x (y ∷ ys) = equals x y || member x ys

-- The members of `new Set(values.filter(Boolean))`.
unfoldable pub distinct : List Str → List Str
unfolding member
distinct [] = []
distinct (x ∷ xs) =
    let rest = distinct xs in if not (truthy x) || member x rest then rest else x ∷ rest

abbrev pub or_empty : Option Str → Str
or_empty none = []
or_empty (some s) = s

abbrev pub admin_ids : List Item → List Str
admin_ids [] = []
admin_ids (item ∷ items) = item.admin_id ∷ admin_ids items

abbrev pub target_types : List Item → List Str
target_types [] = []
target_types (item ∷ items) = or_empty item.target_type ∷ target_types items

-- `AuditSummary`
pub record Summary : Type 0 where
  pub unique_admins : ℕ
  pub unique_target_types : ℕ
  pub latest_event : Option Str

unfoldable pub summarize_audit_logs : Calendar → List Item → Summary
unfolding distinct latest_event
summarize_audit_logs c items = record {
  unique_admins = length (distinct (admin_ids items));
  unique_target_types = length (distinct (target_types items));
  latest_event = latest_event c none items;
}

unfoldable pub active_filter_labels : (format_date : Str → Str) → Filter → List Str
active_filter_labels format_date filters =
    label "admin:" short_id filters.admin_id
    ++ label "action:" as_it_is filters.action
    ++ label "target:" as_it_is filters.target_type
    ++ label "target_id:" short_id filters.target_id
    ++ label "from:" format_date filters.from
    ++ label "to:" format_date filters.to

pub data AuditTone : Type 0 where
  plain : Tone → AuditTone
  purple : AuditTone

unfoldable pub audit_action_tone : (to_lower_case : Str → Str) → Str → AuditTone
audit_action_tone to_lower_case action =
    let normalized = to_lower_case action in
    if includes (codes "revoke") normalized
      || includes (codes "suspend") normalized
      || includes (codes "delete") normalized
    then plain red
    else if includes (codes "topup") normalized || includes (codes "payment") normalized
    then plain green
    else if includes (codes "adjust") normalized
    then plain yellow
    else if includes (codes "user") normalized
        || includes (codes "api_key") normalized
        || includes (codes "key") normalized
    then plain blue
    else if includes (codes "package") normalized
    then purple
    else plain neutral

abbrev is : Option Str → String → Bool
is none name = false
is (some s) name = equals s (codes name)

unfoldable pub target_tone : Option Str → AuditTone
target_tone target_type =
    if is target_type "user"
    then plain blue
    else if is target_type "api_key"
    then plain red
    else if is target_type "payment"
    then plain green
    else if is target_type "package" || is target_type "credit_package"
    then purple
    else plain neutral

-- `parts.filter(Boolean).map(...).join(" ")`
unfoldable pub join_parts : (to_upper_case : Str → Str) → List Str → Str
join_parts to_upper_case [] = []
join_parts to_upper_case ([] ∷ parts) = join_parts to_upper_case parts
join_parts to_upper_case ((x ∷ part) ∷ parts) =
    to_upper_case (x ∷ []) ++ part ++ after_space (join_parts to_upper_case parts)
  where
    after_space : Str → Str
    after_space [] = []
    after_space (y ∷ rest) = b' ' ∷ y ∷ rest

unfoldable pub format_action_label : (to_upper_case : Str → Str) → Str → Str
unfolding join_parts split
format_action_label to_upper_case action = join_parts to_upper_case (split b'_' action)

-- The local fields of a `Date`, its month counted from 1.
pub record DateFields : Type 0 where
  pub year : ℕ
  pub month : ℕ
  pub day : ℕ
  pub hours : ℕ
  pub minutes : ℕ

-- `String(value).padStart(2, "0")`
unfoldable pub pad_date_part : ℕ → Str
unfolding to_digits
pad_date_part value =
    if ltb (length (to_digits value)) 2 then b'0' ∷ to_digits value else to_digits value

unfoldable pub to_datetime_local_value : DateFields → Str
unfolding pad_date_part
to_datetime_local_value date =
    to_digits date.year
    ++ codes "-"
    ++ pad_date_part date.month
    ++ codes "-"
    ++ pad_date_part date.day
    ++ codes "T"
    ++ pad_date_part date.hours
    ++ codes ":"
    ++ pad_date_part date.minutes

-- What `Pagination` shows of a page of `count` rows.
pub record Pages : Type 0 where
  pub start : ℕ
  pub end_ : ℕ
  pub can_go_back : Bool
  pub can_go_on : Bool

unfoldable pub pagination : (count limit offset total : ℕ) (loading : Bool) → Pages
pagination count limit offset total loading = record {
  start = if count == 0 then 0 else offset + 1;
  end_ = offset + count;
  can_go_back = not (offset == 0 || loading);
  can_go_on = not (leb total (offset + count) || ltb count limit || loading);
}

-- ===== src/Tests/Lists.antt =====
-- The list pages on examples: usage, audit, users.
use slai.Base.{
  ℕ, zero, suc, ◌-◌, ◌==◌, ◌≡◌, refl, ltb, false, List, [], ◌∷◌, none, some, codes, length, Option,
  if◌then◌else◌, filter_by, here,
}
use slai.Text.{Str, trimmed, trim, trim_start, trim_end, is_space}
use slai.Api.Errors.{resolved}
use slai.Dates.{Calendar, iso_unless_empty}
use slai.Listing as G
use slai.Listing.Laws.{Consistent}
use slai.Sync.{SyncResult}
use slai.AdminUsage as A
use slai.AdminUsage.Laws as AL
use slai.AdminUsage.Page as AP
use slai.AdminUsage.Page.Laws as APL
use slai.AdminUsage.Page.Runs as R
use slai.Audit as D
use slai.Audit.Page as DP
use slai.Audit.Page.Laws as DPL
use slai.Usage as C
use slai.Usage.Laws as CL

-- The time of the text is its last code unit, and a question mark is no date.
abbrev last_unit : ℕ → Str → Option ℕ
last_unit c [] = if c == b'?' then none else some c
last_unit c (d ∷ s) = last_unit d s

abbrev time_of : Str → Option ℕ
time_of [] = none
time_of (c ∷ s) = last_unit c s

abbrev calendar : Calendar
calendar = record {
  Time = ℕ;
  get_time = time_of;
  later = λ a b. ltb b a;
  to_iso_string = λ t. t ∷ [];
}

abbrev show : ℕ → Str
show n = n ∷ []

abbrev event : A.Event
event = record {
  id = "e1";
  user_id = codes "u1";
  api_key_id = codes "k1";
  external_source = "omniroute";
  external_event_id = "x1";
  omniroute_key_id = none;
  model = none;
  provider = none;
  input_tokens = 3;
  output_tokens = 4;
  total_tokens = 7;
  cost_units = 2;
  status = "billed";
  occurred_at = "2026-01-01";
  raw_json = none;
  created_at = "2026-01-01";
}

abbrev usage_list : G.ListPage
usage_list = APL.usage_list calendar show

abbrev usage_start : G.World usage_list
usage_start = record { state = AP.initial; asked = []; answers = [] }

abbrev usage_world : G.World usage_list
usage_world =
    G.answer usage_list (G.act usage_list usage_start AP.opened) A.first_page
      (resolved (event ∷ []))

usage-Consistent_example : Consistent usage_list AP.initial usage_world
unfolding G.act G.answer AP.step AP.load A.normalize trimmed
usage-Consistent_example =
    R.usage-Consistent calendar show usage_world
      (G.answered (G.acted G.opened AP.opened) A.first_page (resolved (event ∷ [])) here)

-- A list of n events.
abbrev events_of : ℕ → List A.Event
events_of zero = []
events_of (suc n) = event ∷ events_of n

abbrev full_page : AP.Page
full_page = record AP.initial { usage = events_of 50; loading = false }

there_and_back_example :
    let next = AP.step calendar show full_page AP.went_on in
    let back =
      AP.step calendar show
        (AP.loaded (AL.page_query 50 A.first_page) (resolved (event ∷ [])) next.0)
        AP.went_back in
    (next.1 ≡ AP.list_usage (AL.page_query 50 A.first_page) ∷ [])
    × (back.1 ≡ AP.list_usage A.first_page ∷ [])
unfolding AP.initial AL.page_query trimmed
there_and_back_example = R.there_and_back calendar show full_page 0 event [] refl refl refl refl

abbrev synced : SyncResult
synced = record {
  fetched = 1;
  billed = 1;
  duplicate = 0;
  ignored = 0;
  failed = 0;
  suspended_keys = 0;
}

abbrev failed_form : A.Form
failed_form = record A.empty_form { status = codes "failed" }

abbrev failed_filter : A.Filter
failed_filter = record A.first_page { status = some (codes "failed") }

abbrev idle_page : AP.Page
idle_page = record AP.initial { loading = false }

sync-restores_filters_example :
    let started = AP.step calendar show idle_page AP.sync_started in
    let edit = (AP.step calendar show started.0 (AP.edited failed_form)).0 in
    let apply_ = AP.step calendar show edit AP.applied in
    let listed = AP.loaded (A.normalize failed_filter) (resolved []) apply_.0 in
    let answered = AP.step calendar show listed (AP.sync_answered A.first_page (resolved synced)) in
    let old = A.normalize A.first_page in
    let final = AP.loaded old (resolved (event ∷ [])) answered.0 in
    (started.1 ≡ AP.sync_usage A.first_page ∷ [])
    × (apply_.1 ≡ AP.list_usage (A.normalize failed_filter) ∷ [])
    × (listed.filters ≡ A.normalize failed_filter)
    × (answered.1 ≡ AP.list_usage old ∷ [])
    × (final.filters ≡ old)
    × (final.form_filters ≡ failed_form)
unfolding AP.initial A.validate_date_range A.form_filters_to_api_filter A.normalize iso_unless_empty
    trimmed trim trim_start trim_end is_space
sync-restores_filters_example =
    R.sync-restores_filters calendar show idle_page failed_form failed_filter synced [] (event ∷ [])
      refl refl refl refl

summarize_usage-counts_example :
    ((A.summarize_usage (event ∷ [])).billed
      ≡ length (filter_by (AL.status_is "billed") (event ∷ [])))
    × ((A.summarize_usage (event ∷ [])).pending
        ≡ length (filter_by (AL.status_is "pending") (event ∷ [])))
    × ((A.summarize_usage (event ∷ [])).failed
        ≡ length (filter_by (AL.status_is "failed") (event ∷ [])))
    × ((A.summarize_usage (event ∷ [])).ignored
        ≡ length (filter_by (AL.status_is "ignored") (event ∷ [])))
    × ((A.summarize_usage (event ∷ [])).input_tokens ≡ 3)
    × ((A.summarize_usage (event ∷ [])).output_tokens ≡ 4)
    × ((A.summarize_usage (event ∷ [])).total_tokens ≡ 7)
    × ((A.summarize_usage (event ∷ [])).cost_units ≡ 2)
summarize_usage-counts_example = AL.summarize_usage-counts (event ∷ [])

abbrev date : ℕ → D.DateFields
date n = record { year = 2025; month = n; day = n; hours = n; minutes = n }

abbrev earlier : ℕ → ℕ → ℕ
earlier now days = now - days

abbrev audit_list : G.ListPage
audit_list = DPL.audit_list calendar earlier date

abbrev log : D.Item
log = record {
  id = "l1";
  admin_id = codes "a1";
  admin_email = "root@example.com";
  action = codes "user_suspend";
  target_type = some (codes "user");
  target_id = none;
  metadata = none;
  created_at = codes "d1";
}

abbrev logs : D.Logs
logs = record { items = log ∷ []; limit = 50; offset = 0; total = 1 }

abbrev audit_start : G.World audit_list
audit_start = record { state = DP.initial; asked = []; answers = [] }

abbrev audit_world : G.World audit_list
audit_world =
    G.answer audit_list (G.act audit_list audit_start DP.opened) D.empty_request (resolved logs)

audit-Consistent_example : Consistent audit_list DP.initial audit_world
unfolding G.act G.answer DP.step DP.load D.normalize_request trimmed
audit-Consistent_example =
    DPL.audit-Consistent calendar earlier date audit_world
      (G.answered (G.acted G.opened DP.opened) D.empty_request (resolved logs) here)

abbrev half_range : C.Filters
half_range = record C.empty_filters { from = codes "??" }

abbrev idle_usage : C.Page
idle_usage = record C.initial { loading = false; draft_filters = half_range }

invalid_date-Stuck_example :
    let r =
      C.run calendar idle_usage
        (C.applied ∷ C.edited C.empty_filters ∷ C.applied ∷ C.refreshed ∷ []) in
    CL.Stuck r.0 × (r.1 ≡ [])
unfolding C.initial
invalid_date-Stuck_example =
    CL.invalid_date-Stuck calendar idle_usage b'?' (b'?' ∷ [])
      (C.edited C.empty_filters ∷ C.applied ∷ C.refreshed ∷ []) refl refl refl

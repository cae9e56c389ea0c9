-- ===== src/Sync.antt =====
-- The usage synchronisation, apps/web/src/app/admin/sync/page.tsx: its banner, its advice on
-- errors, durations, and the page. Counts are grouped by `format_units`, and `get_time` is the
-- time of a date in milliseconds since 1970, if it is a date.
pub mod Laws
use slai.Base.{
  ℕ, ◌+◌, ◌-◌, ◌*◌, ◌/◌, ◌%◌, ltb, Bool, true, false, not, ◌||◌, List, [], ◌∷◌, ◌++◌, Option, none,
  some, String, if◌then◌else◌, codes,
}
use slai.Text.{Str, truthy, includes, has_text}
use slai.Text.Decimal.{to_digits}
use slai.Redact.{fold_case}
use slai.Api.Errors.{Failure, Outcome, resolved, rejected, readable_error}

pub record SyncResult : Type 0 where
  pub fetched : ℕ
  pub billed : ℕ
  pub duplicate : ℕ
  pub ignored : ℕ
  pub failed : ℕ
  pub suspended_keys : ℕ

pub record SyncStatus : Type 0 where
  pub worker_enabled : Bool
  pub last_started_at : Option Str
  pub last_finished_at : Option Str
  pub last_success_at : Option Str
  pub last_error : Option Str
  pub last_result : Option SyncResult
  pub currently_running : Bool

pub data Tone : Type 0 where
  green yellow red blue neutral : Tone

pub record BannerState : Type 0 where
  pub tone : Tone
  pub label : String
  pub title : String
  pub message : String

unfoldable pub banner_of : SyncStatus → BannerState
banner_of status =
    if has_text status.last_error
    then record {
      tone = red;
      label = "Sync issue";
      title = "Attention needed";
      message = "Check OmniRoute configuration or run manual sync after fixing settings.";
    }
    else if not status.worker_enabled
    then record {
      tone = yellow;
      label = "Worker disabled";
      title = "Automatic sync is disabled";
      message =
          "Manual sync is still available. Enable the background worker in production when OmniRoute billing sync should run automatically.";
    }
    else if not (has_text status.last_started_at)
    then record {
      tone = blue;
      label = "Not synced yet";
      title = "No sync has started";
      message =
          "Run a manual sync or wait for the background worker to complete its first scheduled run.";
    }
    else if has_text status.last_success_at
    then record {
      tone = green;
      label = "Sync healthy";
      title = "Usage billing is syncing normally";
      message = "The last sync completed successfully and no current sync error is recorded.";
    }
    else record {
      tone = neutral;
      label = "Waiting";
      title = "Sync state is pending";
      message = "A sync has started, but no successful completion has been recorded yet.";
    }

unfoldable pub get_banner_state : Option SyncStatus → Option BannerState
unfolding banner_of
get_banner_state none = none
get_banner_state (some status) = some (banner_of status)

abbrev mentions_one : List String → Str → Bool
mentions_one [] s = false
mentions_one (w ∷ ws) s = includes (codes w) s || mentions_one ws s

-- The lower case of ASCII letters, which is all that the words looked for have.
unfoldable pub advice : Str → String
advice error =
    let normalized = fold_case error in
    if mentions_one ("not implemented" ∷ []) normalized
    then "The configured client cannot fetch usage. Check OMNIROUTE_ENABLED and real HTTP client wiring."
    else if mentions_one ("unauthorized" ∷ "forbidden" ∷ "401" ∷ "403" ∷ []) normalized
    then "Check OMNIROUTE_MANAGEMENT_TOKEN and confirm SLAI and OmniRoute use the same management token."
    else if mentions_one ("not found" ∷ "404" ∷ []) normalized
    then "Check the OmniRoute usage endpoint path and confirm the patched OmniRoute fork is deployed."
    else "Review API logs and OmniRoute configuration, then run a manual sync after applying the fix."

abbrev no_error_advice : String
no_error_advice =
    "No sync error is currently recorded. Use the usage events page to inspect billed, ignored, duplicate, and failed events."

unfoldable pub get_troubleshooting : Option Str → String
unfolding advice
get_troubleshooting none = no_error_advice
get_troubleshooting (some error) = if not (truthy error) then no_error_advice else advice error

-- The shape of a duration's text.
pub data Duration : Type 0 where
  milliseconds seconds minutes : ℕ → Duration
  minutes_seconds : (m s : ℕ) → Duration

-- `Math.round(ms / 1000)` rounds a half up.
unfoldable pub duration : ℕ → Duration
duration ms =
    let total = (ms + 500) / 1000 in
    if ltb ms 1000
    then milliseconds ms
    else if ltb total 60
    then seconds total
    else if ltb 0 (total % 60)
    then minutes_seconds (total / 60) (total % 60)
    else minutes (total / 60)

abbrev print : Duration → Str
print (milliseconds n) = to_digits n ++ codes "ms"
print (seconds n) = to_digits n ++ codes "s"
print (minutes m) = to_digits m ++ codes "m"
print (minutes_seconds m s) = to_digits m ++ codes "m " ++ to_digits s ++ codes "s"

unfoldable pub format_duration_ms : ℕ → Str
unfolding duration
format_duration_ms ms = print (duration ms)

unfoldable pub format_seconds : Option ℕ → Str
unfolding format_duration_ms
format_seconds none = codes "Not exposed"
format_seconds (some n) = if ltb 0 n then format_duration_ms (n * 1000) else codes "Not exposed"

abbrev between : (started finished : Option ℕ) → Str
between (some started) (some finished) =
    if ltb finished started then codes "-" else format_duration_ms (finished - started)
between _ _ = codes "-"

abbrev last_duration : (get_time : Str → Option ℕ) → (started finished : Option Str) → Str
last_duration get_time (some started) (some finished) =
    if truthy started
    then (if truthy finished then between (get_time started) (get_time finished) else codes "-")
    else codes "-"
last_duration get_time _ _ = codes "-"

unfoldable pub get_last_duration : (get_time : Str → Option ℕ) → Option SyncStatus → Str
unfolding format_duration_ms
get_last_duration get_time none = codes "-"
get_last_duration get_time (some status) =
    last_duration get_time status.last_started_at status.last_finished_at

unfoldable pub sync_summary_text : (format_units : ℕ → Str) → SyncResult → Str
sync_summary_text format_units result =
    codes "Sync complete: "
    ++ format_units result.fetched
    ++ codes " fetched, "
    ++ format_units result.billed
    ++ codes " billed, "
    ++ format_units result.duplicate
    ++ codes " duplicate, "
    ++ format_units result.ignored
    ++ codes " ignored, "
    ++ format_units result.failed
    ++ codes " failed, "
    ++ format_units result.suspended_keys
    ++ codes " suspended keys."

pub record Page : Type 0 where
  pub status : Option SyncStatus
  pub loading : Bool
  pub syncing : Bool
  pub error : Option String
  pub notice : Option Str

unfoldable pub load : Page → Outcome SyncStatus → Page
load s (resolved x) = record s { status = some x; error = none; loading = false }
load s (rejected e) = record s { error = some (readable_error e); loading = false }

-- The second answer is that of the status, which is asked for after the synchronisation.
unfoldable pub run_sync :
    (format_units : ℕ → Str) → Page → Outcome SyncResult → Outcome SyncStatus → Page
unfolding sync_summary_text
run_sync format_units s (resolved r) (resolved x) = record s {
  status = some x;
  syncing = false;
  error = none;
  notice = some (sync_summary_text format_units r);
}
run_sync format_units s (resolved r) (rejected e) = record s {
  syncing = false;
  error = some (readable_error e);
  notice = some (sync_summary_text format_units r);
}
run_sync format_units s (rejected e) _ = record s {
  syncing = false;
  error = some (readable_error e);
  notice = none;
}

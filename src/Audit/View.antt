-- ===== src/Audit/View.antt =====
-- What `AdminAuditPage` shows: apps/web/src/app/admin/audit/page.tsx from its return on, with its
-- table and the drawer of a log. `preview` and `stringify` are `JSON.stringify`, plain and with an
-- indent of two.
pub mod Laws
use slai.Base.{
  ℕ, ◌+◌, ◌==◌, Bool, true, false, not, ◌&&◌, ◌||◌, List, [], ◌∷◌, ◌++◌, Option, none, some, String,
  codes, if◌then◌else◌, length,
}
use slai.Text.{Str, is_empty}
use slai.Format.{truncate_id}
use slai.Dates.{Calendar}
use slai.Redact.{Json, object, Fields, end, redact, redact_fields, keys, is_sensitive_key_audit}
use slai.Badge.{BadgeTone}
use slai.Markup.{
  Node, Nodes, text, say, badge, field, input, button, when, either, given, each, str_or, Formats,
}
use slai.Markup.Parts.{loading_state, error_state}
use slai.AdminUsage.View.{badge_tone as plain_tone}
use slai.Audit.{
  limit, Form, Item, Logs, Summary, summarize_audit_logs, AuditTone, plain, purple,
  audit_action_tone, target_tone, format_action_label, pagination,
}
use slai.Audit.Page.{Page}

pub data Click : Type 0 where
  typed : (label : String) → Click
  refresh apply clear retry previous next close : Click
  last_days : (days : ℕ) → Click
  select : Item → Click

abbrev badge_tone : AuditTone → BadgeTone
badge_tone (plain tone) = plain_tone tone
badge_tone purple = BadgeTone.purple

-- `log.metadata ?? {}`, redacted.
abbrev or_end : Option Fields → Fields
or_end none = end
or_end (some fields) = fields

unfoldable pub redacted_fields : Item → Fields
unfolding redact_fields is_sensitive_key_audit
redacted_fields log = redact_fields is_sensitive_key_audit (or_end log.metadata)

unfoldable pub empty_state : (filtered : Bool) → Nodes Click
empty_state true =
    say "No audit logs match these filters"
    ∷ say "Adjust or clear filters to review more admin activity."
    ∷ button (codes "Clear filters") false clear
    ∷ []
empty_state false =
    say "No audit logs yet" ∷ say "Admin actions will appear here after changes are made." ∷ []

abbrev filter_fields : Form → Nodes Click
filter_fields form =
    input (codes "Action") form.action false (some (typed "Action"))
    ∷ input (codes "Target type") form.target_type false (some (typed "Target type"))
    ∷ input (codes "Admin ID") form.admin_id false (some (typed "Admin ID"))
    ∷ input (codes "Target ID") form.target_id false (some (typed "Target ID"))
    ∷ input (codes "From") form.from false (some (typed "From"))
    ∷ input (codes "To") form.to false (some (typed "To"))
    ∷ []

abbrev label_node : Str → Nodes Click
label_node label = text label ∷ []

unfoldable pub filter_bar : (labels : List Str) → Page → Nodes Click
filter_bar labels s =
    say "Filters"
      ∷ say "Filter activity by admin, action, target, and time range."
      ∷ filter_fields s.form_filters
    ++ button (codes "Last 24h") s.loading (last_days 1)
      ∷ button (codes "Last 7d") s.loading (last_days 7)
      ∷ button (codes "Last 30d") s.loading (last_days 30)
      ∷ button (codes "Apply") s.loading apply
      ∷ button (codes "Clear") (s.loading && is_empty labels) clear
      ∷ given s.filter_error (λ message. say message ∷ [])
    ++ say "Active filters"
      ∷ either (not (is_empty labels)) (each label_node labels) (say "No active filters" ∷ [])

unfoldable pub header : (labels : List Str) → Page → Nodes Click
header labels s =
    say "Admin audit"
    ∷ say "Audit logs"
    ∷ say "Track admin actions, sensitive changes, and operational events."
    ∷ button (codes "Refresh") s.loading refresh
    ∷ when (not (is_empty labels)) (button (codes "Clear filters") s.loading clear ∷ [])

abbrev items_of : Option Logs → List Item
items_of none = []
items_of (some logs) = logs.items

abbrev total_of : Option Logs → ℕ
total_of none = 0
total_of (some logs) = logs.total

abbrev limit_of : Option Logs → ℕ
limit_of none = limit
limit_of (some logs) = logs.limit

abbrev offset_in : Option Logs → ℕ
offset_in none = 0
offset_in (some logs) = logs.offset

module _ (formats : Formats) (format_date_time : Str → Str) (preview stringify : Json → Str)
    (to_lower_case to_upper_case : Str → Str) (c : Calendar) where
  abbrev action_label : Item → Str
  action_label log = format_action_label to_upper_case log.action

  abbrev action_badge : Item → Node Click
  action_badge log =
      badge (badge_tone (audit_action_tone to_lower_case log.action)) (action_label log)

  abbrev summary_card : (label : String) (value : Str) (hint : String) → Nodes Click
  summary_card label value hint = field (codes label) value ∷ say hint ∷ []

  abbrev latest_text : Option Str → Str
  latest_text none = codes "-"
  latest_text (some date) = format_date_time date

  unfoldable pub summary_cards : Page → Nodes Click
  unfolding summarize_audit_logs
  summary_cards s =
      let sums = summarize_audit_logs c (items_of s.data_) in
      summary_card "Events" (formats.format_units (total_of s.data_)) "Matching current filters"
      ++ summary_card "Admin actions" (formats.format_units sums.unique_admins)
          "Unique admins on page"
      ++ summary_card "Target types" (formats.format_units sums.unique_target_types)
          "Unique target types on page"
      ++ summary_card "Latest event" (latest_text sums.latest_event) "Current result page"

  abbrev fields_text : ℕ → Str
  fields_text n = formats.format_units n ++ codes " field" ++ (if n == 1 then [] else codes "s")

  -- `MetadataPreview`
  unfoldable pub metadata_preview : Fields → Nodes Click
  unfolding keys
  metadata_preview redacted =
      either (is_empty (keys redacted)) (say "No metadata" ∷ [])
        (text (fields_text (length (keys redacted))) ∷ text (preview (object redacted)) ∷ [])

  unfoldable pub row : Item → Nodes Click
  unfolding truncate_id audit_action_tone format_action_label target_tone metadata_preview
      redacted_fields
  row log =
      text (format_date_time log.created_at)
        ∷ text (truncate_id (some (codes log.id)) 8 4)
        ∷ say log.admin_email
        ∷ text (truncate_id (some log.admin_id) 8 4)
        ∷ action_badge log
        ∷ text log.action
        ∷ badge (badge_tone (target_tone log.target_type)) (str_or log.target_type "none")
        ∷ text (truncate_id log.target_id 8 4)
        ∷ metadata_preview (redacted_fields log)
      ++ button (codes "View details") false (select log) ∷ []

  unfoldable pub drawer : Item → Nodes Click
  unfolding audit_action_tone format_action_label redacted_fields
  drawer log =
      say "Audit event"
      ∷ text (action_label log)
      ∷ text (format_date_time log.created_at)
      ∷ button (codes "Close") false close
      ∷ say "Action"
      ∷ text log.action
      ∷ action_badge log
      ∷ field (codes "Audit log ID") (codes log.id)
      ∷ field (codes "Created at") (format_date_time log.created_at)
      ∷ field (codes "Admin email") (codes log.admin_email)
      ∷ field (codes "Admin ID") log.admin_id
      ∷ field (codes "Target type") (str_or log.target_type "-")
      ∷ field (codes "Target ID") (str_or log.target_id "-")
      ∷ say "Metadata"
      ∷ say "Sensitive metadata keys are defensively redacted in the browser."
      ∷ text (stringify (object (redacted_fields log)))
      ∷ []

  unfoldable pub paging : (count : ℕ) → Page → Nodes Click
  unfolding pagination
  paging count s =
      let pages =
        pagination count (limit_of s.data_) (offset_in s.data_) (total_of s.data_) s.loading in
      text (
        codes "Showing "
        ++ formats.format_units pages.start
        ++ codes "-"
        ++ formats.format_units pages.end_
        ++ codes " of "
        ++ formats.format_units (total_of s.data_))
      ∷ button (codes "Previous") (not pages.can_go_back) previous
      ∷ button (codes "Next") (not pages.can_go_on) next
      ∷ []

  unfoldable pub listing : (filtered : Bool) → List Item → Page → Nodes Click
  unfolding paging row empty_state
  listing filtered [] s = empty_state filtered
  listing filtered (log ∷ logs) s = each row (log ∷ logs) ++ paging (length (log ∷ logs)) s

  abbrev is_none {ℓ} : {A : Type ℓ} → Option A → Bool
  is_none none = true
  is_none (some _) = false

  unfoldable pub view : (labels : List Str) → Page → Nodes Click
  unfolding loading_state error_state
  view labels s =
      header labels s
      ++ summary_cards s
      ++ filter_bar labels s
      ++ when s.loading (loading_state "Loading audit logs")
      ++ given s.error (λ message. error_state message (some retry))
      ++ when (not s.loading && is_none s.error)
          (listing (not (is_empty labels)) (items_of s.data_) s)
      ++ given s.selected_log drawer

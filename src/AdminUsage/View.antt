-- ===== src/AdminUsage/View.antt =====
-- What `AdminUsagePage` shows: apps/web/src/app/admin/usage/page.tsx from its cards on, with its
-- table and the drawer of an event. `stringify` is `JSON.stringify` with an indent of two.
pub mod Laws
use slai.Base.{
  ℕ, ◌+◌, ltb, Bool, true, false, not, ◌&&◌, ◌||◌, List, [], ◌∷◌, ◌++◌, Option, none, some, String,
  codes, if◌then◌else◌, length,
}
use slai.Text.{Str, has_text, is_empty}
use slai.Format.{truncate_id}
use slai.Redact.{Json, object, Fields, redact, is_sensitive_key_usage}
use slai.Badge.{BadgeTone}
use slai.Markup.{
  Node, Nodes, text, say, badge, field, input, link, button, when, given, each, text_or, str_or,
  Formats,
}
use slai.Markup.Parts.{loading_state, error_state}
use slai.AdminUsage.{
  Event, Form, Filter, limit, Summary, summarize_usage, active_filter_labels, Tone, green, blue,
  neutral, yellow, red, usage_status_tone, Pages, pagination,
}
use slai.AdminUsage.Page.{Page, offset_of}

pub data Click : Type 0 where
  typed : (label : String) → Click
  apply clear retry previous next close : Click
  select : Event → Click

abbrev pub badge_tone : Tone → BadgeTone
badge_tone green = BadgeTone.green
badge_tone blue = BadgeTone.blue
badge_tone neutral = BadgeTone.neutral
badge_tone yellow = BadgeTone.yellow
badge_tone red = BadgeTone.red

abbrev status_badge : Event → Node Click
status_badge event = badge (badge_tone (usage_status_tone event.status)) (codes event.status)

abbrev user_path : Event → Str
user_path event = codes "/admin/users/" ++ event.user_id

-- The payload as the drawer takes it, if the event has one.
unfoldable pub shown_payload : Event → Option Json
unfolding redact is_sensitive_key_usage
shown_payload event = elim event.raw_json [
  | none ↦ none
  | some fields ↦ some (redact is_sensitive_key_usage (object fields))
]

unfoldable pub empty_state : (filtered : Bool) → Nodes Click
empty_state true =
    say "No usage matches these filters"
    ∷ say "Adjust or clear filters to inspect more usage events."
    ∷ button (codes "Clear filters") false clear
    ∷ link (codes "/admin/sync") (codes "Open Sync Status")
    ∷ []
empty_state false =
    say "No usage events"
    ∷ say "Usage will appear after OmniRoute call logs are synced."
    ∷ link (codes "/admin/sync") (codes "Open Sync Status")
    ∷ []

abbrev filter_fields : Form → Nodes Click
filter_fields form =
    input (codes "User ID") form.user_id false (some (typed "User ID"))
    ∷ input (codes "API key ID") form.api_key_id false (some (typed "API key ID"))
    ∷ input (codes "Model") form.model false (some (typed "Model"))
    ∷ input (codes "Provider") form.provider false (some (typed "Provider"))
    ∷ input (codes "Status") form.status false (some (typed "Status"))
    ∷ input (codes "From") form.from false (some (typed "From"))
    ∷ input (codes "To") form.to false (some (typed "To"))
    ∷ []

abbrev label_node : Str → Nodes Click
label_node label = text label ∷ []

unfoldable pub filter_bar : (labels : List Str) → Page → Nodes Click
filter_bar labels s =
    say "Filters"
      ∷ say "Filter synced OmniRoute call logs and local mock usage events."
      ∷ filter_fields s.form_filters
    ++ button (codes "Apply filters") s.loading apply
      ∷ button (codes "Clear") (s.loading && is_empty labels) clear
      ∷ given s.filter_error (λ message. say message ∷ [])
    ++ when (not (is_empty labels)) (say "Active filters" ∷ each label_node labels)

module _ (formats : Formats) (stringify : Json → Str) where
  abbrev summary_card : (label : String) (value hint : Str) (scope : String) → Nodes Click
  summary_card label value hint scope = field (codes label) value ∷ text hint ∷ say scope ∷ []

  unfoldable pub summary_cards : List Event → Nodes Click
  unfolding summarize_usage
  summary_cards usage =
      let s = summarize_usage usage in
      summary_card "Events" (formats.format_units (length usage))
        (formats.format_units s.billed
          ++ codes " billed / "
          ++ formats.format_units s.pending
          ++ codes " pending")
        "Current page"
      ++ summary_card "Tokens" (formats.format_compact_units s.total_tokens)
          (formats.format_compact_units s.input_tokens
            ++ codes " input / "
            ++ formats.format_compact_units s.output_tokens
            ++ codes " output")
          "Current page"
      ++ summary_card "Credit cost" (formats.format_compact_credits s.cost_units)
          (codes "Deducted credits") "Current page"
      ++ summary_card "Exceptions" (formats.format_units (s.failed + s.ignored))
          (formats.format_units s.failed
            ++ codes " failed / "
            ++ formats.format_units s.ignored
            ++ codes " ignored")
          (if ltb 0 (s.failed + s.ignored) then "Needs review" else "OK")

  abbrev omniroute_line : Option Str → Nodes Click
  omniroute_line id = when (has_text id) (text (codes "OR " ++ truncate_id id 8 4) ∷ [])

  unfoldable pub row : Event → Nodes Click
  unfolding truncate_id usage_status_tone
  row event =
      text (formats.format_date_time (some event.occurred_at))
        ∷ text (codes "Synced " ++ formats.format_date_time (some event.created_at))
        ∷ link (user_path event) (truncate_id (some event.user_id) 8 4)
        ∷ text (truncate_id (some event.api_key_id) 8 4)
        ∷ omniroute_line event.omniroute_key_id
      ++ text (text_or event.model "-")
        ∷ text (text_or event.provider "-")
        ∷ text (formats.format_compact_units event.total_tokens)
        ∷ text (
            formats.format_compact_units event.input_tokens
            ++ codes " in / "
            ++ formats.format_compact_units event.output_tokens
            ++ codes " out")
        ∷ text (formats.format_compact_credits event.cost_units)
        ∷ status_badge event
        ∷ say event.external_source
        ∷ say event.external_event_id
        ∷ button (codes "View details") false (select event)
        ∷ []

  abbrev payload_text : Option Json → Str
  payload_text none = codes "No raw payload is available for this event."
  payload_text (some v) = stringify v

  unfoldable pub drawer : Event → Nodes Click
  unfolding truncate_id usage_status_tone
  drawer event =
      say "Usage event"
      ∷ text (truncate_id (some (codes event.id)) 12 6)
      ∷ say "OmniRoute usage metadata and SLAI billing result."
      ∷ button (codes "Close") false close
      ∷ say "Billing status"
      ∷ text (formats.format_date_time (some event.occurred_at))
      ∷ status_badge event
      ∷ field (codes "Event ID") (codes event.id)
      ∷ field (codes "External event ID") (codes event.external_event_id)
      ∷ field (codes "External source") (codes event.external_source)
      ∷ field (codes "Created") (formats.format_date_time (some event.created_at))
      ∷ say "User ID"
      ∷ link (user_path event) event.user_id
      ∷ field (codes "API key ID") event.api_key_id
      ∷ field (codes "OmniRoute key ID") (str_or event.omniroute_key_id "-")
      ∷ field (codes "Model") (text_or event.model "-")
      ∷ field (codes "Provider") (text_or event.provider "-")
      ∷ field (codes "Input tokens") (formats.format_units event.input_tokens)
      ∷ field (codes "Output tokens") (formats.format_units event.output_tokens)
      ∷ field (codes "Total tokens") (formats.format_units event.total_tokens)
      ∷ field (codes "Credit cost") (formats.format_credits event.cost_units)
      ∷ say "Raw payload"
      ∷ say "Sensitive key, token, password, authorization, and secret fields are redacted."
      ∷ text (payload_text (shown_payload event))
      ∷ []

  unfoldable pub paging : (count : ℕ) → Page → Nodes Click
  unfolding pagination
  paging count s =
      let pages = pagination count limit (offset_of s) s.loading in
      text (
        codes "Showing "
        ++ formats.format_units pages.start
        ++ codes "-"
        ++ formats.format_units pages.end_
        ++ (if pages.more then codes "+" else []))
      ∷ button (codes "Previous") (not pages.can_go_back) previous
      ∷ button (codes "Next") (not pages.can_go_on) next
      ∷ []

  unfoldable pub listing : (filtered : Bool) → List Event → Page → Nodes Click
  unfolding paging row empty_state
  listing filtered [] s = empty_state filtered
  listing filtered (event ∷ events) s =
      each row (event ∷ events) ++ paging (length (event ∷ events)) s

  abbrev is_none {ℓ} : {A : Type ℓ} → Option A → Bool
  is_none none = true
  is_none (some _) = false

  -- The page below its header.
  unfoldable pub view : (labels : List Str) → Page → Nodes Click
  unfolding loading_state error_state
  view labels s =
      summary_cards s.usage
      ++ given s.notice (λ notice. text notice ∷ [])
      ++ filter_bar labels s
      ++ when s.loading (loading_state "Loading usage")
      ++ given s.error (λ message. error_state message (some retry))
      ++ when (not s.loading && is_none s.error) (listing (not (is_empty labels)) s.usage s)
      ++ given s.selected_event drawer

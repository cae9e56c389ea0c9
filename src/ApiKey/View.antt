-- ===== src/ApiKey/View.antt =====
-- What `APIKeyPage` shows: apps/web/src/app/dashboard/api-key/page.tsx, its cards and its return.
pub mod Laws
use slai.Base.{
  Bool, true, false, not, ◌&&◌, ◌||◌, List, [], ◌∷◌, ◌++◌, Option, none, some, String, codes,
  if◌then◌else◌, str_eq,
}
use slai.Text.{Str, trim, truthy}
use slai.Badge.{BadgeTone, status_tone}
use slai.Markup.{
  Node, Nodes, text, say, badge, field, link, button, when, either, given, label_if, Formats,
}
use slai.Markup.Parts.{loading_state, error_state, input_field}
use slai.ApiKey.{
  KeyStatus, active, suspended, revoked, PublicKey, ConfirmAction, rotate, revoke, Page, can_create,
}

pub data Click : Type 0 where
  typed : (label : String) → Click
  retry focus_form create dismiss copy_raw confirm cancel : Click
  ask : ConfirmAction → Click

abbrev pub status_name : KeyStatus → String
status_name active = "ACTIVE"
status_name suspended = "SUSPENDED"
status_name revoked = "REVOKED"

abbrev pub is_revoked : KeyStatus → Bool
is_revoked revoked = true
is_revoked active = false
is_revoked suspended = false

unfoldable pub key_status_label : Option PublicKey → Str
key_status_label none = codes "None"
key_status_label (some k) = codes (status_name k.status)

abbrev key_badge : Option PublicKey → Node Click
key_badge none = badge BadgeTone.neutral (codes "None")
key_badge (some k) =
    badge (status_tone (some (status_name k.status))) (codes (status_name k.status))

-- `rawKey ?? "YOUR_API_KEY"`
abbrev shown_key : Option Str → Str
shown_key none = codes "YOUR_API_KEY"
shown_key (some raw) = raw

-- A line feed.
abbrev line : Str
line = 10 ∷ []

unfoldable pub quickstart_curl : Option Str → Str
quickstart_curl raw_key =
    codes "curl https://YOUR_SLAI_GATEWAY_DOMAIN/v1/chat/completions \\"
    ++ line
    ++ codes "  -H \"Authorization: Bearer "
    ++ shown_key raw_key
    ++ codes "\" \\"
    ++ line
    ++ codes "  -H \"Content-Type: application/json\""

-- The button of the header.
unfoldable pub header : Option PublicKey → (action_loading : Bool) → Nodes Click
header none action_loading =
    say "Developer key"
    ∷ say "API key"
    ∷ say "Manage the key used to send SLAI-billed AI requests."
    ∷ button (codes "Create API key") false focus_form
    ∷ []
header (some k) action_loading =
    say "Developer key"
    ∷ say "API key"
    ∷ say "Manage the key used to send SLAI-billed AI requests."
    ∷ either (not (is_revoked k.status))
        (button (codes "Rotate key") action_loading (ask rotate) ∷ [])
        (button (codes "Create API key") false focus_form ∷ [])

unfoldable pub confirm_panel : ConfirmAction → (action_loading : Bool) → Nodes Click
confirm_panel rotate action_loading =
    say "Rotate this key?"
    ∷ say
        "Rotating revokes the current key. Existing integrations using the old key will stop working."
    ∷ button (codes "Cancel") action_loading cancel
    ∷ button (label_if action_loading "Working" "Rotate key") action_loading confirm
    ∷ []
confirm_panel revoke action_loading =
    say "Revoke this key?"
    ∷ say "Revoking this key will disable API access for this account."
    ∷ button (codes "Cancel") action_loading cancel
    ∷ button (label_if action_loading "Working" "Revoke key") action_loading confirm
    ∷ []

unfoldable pub raw_key_card : Option Str → Nodes Click
raw_key_card none = []
raw_key_card (some raw) = when (truthy raw) (
    say "Copy your API key now"
    ∷ say "This key is shown only once. SLAI cannot show it again."
    ∷ badge BadgeTone.yellow (codes "Shown once")
    ∷ text raw
    ∷ button (codes "Copy") false copy_raw
    ∷ button (codes "I have copied this key") false dismiss
    ∷ [])

abbrev security_line : (title content : String) → Node Click
security_line title content = field (codes title) (codes content)

unfoldable pub create_or_security : Page → Nodes Click
unfolding can_create input_field trim
create_or_security s =
    either (can_create s.api_key)
      (say "Create key"
          ∷ say "MVP allows one active key per user."
          ∷ input_field "Key name" (some "The raw key will be shown once after creation.") s.name
              (typed "Key name")
        ++ button (label_if s.action_loading "Creating" "Create key")
            (s.action_loading || not (truthy (trim s.name))) create
          ∷ [])
      (say "Key actions"
        ∷ say "Use rotation and revocation to control access."
        ∷ security_line "One active key" "The MVP supports one active API key per account."
        ∷ security_line "Rotate if exposed"
            "Rotation revokes the old key and reveals a new raw key once."
        ∷ security_line "Revoke to stop traffic" "Revocation disables API access for this account."
        ∷ [])

unfoldable pub quickstart_card : Option Str → Nodes Click
unfolding quickstart_curl
quickstart_card raw_key =
    say "Quickstart"
    ∷ say "Use your key from a trusted server-side environment."
    ∷ say "curl"
    ∷ say "SLAI API"
    ∷ text (quickstart_curl raw_key)
    ∷ say "Do not expose this key in frontend or mobile apps."
    ∷ say "Store it in environment variables on your server."
    ∷ link (codes "/dashboard/usage") (codes "Open usage")
    ∷ link (codes "/dashboard/billing") (codes "Open billing")
    ∷ []

abbrev security_guidance : Nodes Click
security_guidance =
    say "Security guidance"
    ∷ say "Safe defaults for production integrations."
    ∷ security_line "Treat it like a password"
        "Anyone with the raw key can spend credits through your account."
    ∷ security_line "Server-side only"
        "Keep the key out of browser, mobile, and public repositories."
    ∷ security_line "Rotate leaked keys" "Create a new key immediately if you suspect exposure."
    ∷ security_line "Shown once" "SLAI stores only safe metadata and cannot reveal raw keys again."
    ∷ []

module _ (formats : Formats) where
  unfoldable pub safe_date : Option String → (fallback : String) → Str
  safe_date none fallback = codes fallback
  safe_date (some date) fallback =
      if str_eq date "" then codes fallback else formats.format_date_time (some date)

  unfoldable pub current_key : Page → Nodes Click
  unfolding safe_date confirm_panel
  current_key s =
      say "Current key"
      ∷ say "Only safe metadata is visible after create or rotate."
      ∷ key_badge s.api_key
      ∷ elim s.api_key [
        | none ↦
            say "No API key"
            ∷ say "Create your one active key to send SLAI-billed AI requests."
            ∷ button (codes "Create API key") false focus_form
            ∷ []
        | some k ↦
            say "Key prefix"
              ∷ say "raw key hidden"
              ∷ say k.key_prefix
              ∷ field (codes "Name") (codes (if str_eq k.name "" then "Default key" else k.name))
              ∷ field (codes "Created") (safe_date (some k.created_at) "-")
              ∷ field (codes "Last used") (safe_date k.last_used_at "Never")
              ∷ field (codes "Revoked") (safe_date k.revoked_at "-")
              ∷ given s.pending_confirm (λ action. confirm_panel action s.action_loading)
            ++ button (codes "Rotate key") (s.action_loading || is_revoked k.status) (ask rotate)
              ∷ button (codes "Revoke key") (s.action_loading || is_revoked k.status) (ask revoke)
              ∷ []
      ]

  abbrev prefix_of : Option PublicKey → Str
  prefix_of none = codes "-"
  prefix_of (some k) = codes k.key_prefix

  abbrev last_used : Option PublicKey → Option String
  last_used none = none
  last_used (some k) = k.last_used_at

  unfoldable pub summary : Option PublicKey → Nodes Click
  unfolding safe_date key_status_label
  summary key =
      field (codes "Key status") (key_status_label key)
      ∷ say "Current API access state"
      ∷ key_badge key
      ∷ field (codes "Key prefix") (prefix_of key)
      ∷ say "Safe display identifier"
      ∷ field (codes "Last used") (safe_date (last_used key) "Never")
      ∷ say "From synced key metadata"
      ∷ field (codes "Mode") (codes "Managed by SLAI")
      ∷ say "SLAI-billed API access"
      ∷ []

  abbrev pub is_none {ℓ} : {A : Type ℓ} → Option A → Bool
  is_none none = true
  is_none (some _) = false

  unfoldable pub content : Page → Nodes Click
  content s =
      summary s.api_key
      ++ given s.notice (λ notice. say notice ∷ [])
      ++ raw_key_card s.raw_key
      ++ current_key s
      ++ quickstart_card s.raw_key
      ++ create_or_security s
      ++ security_guidance

  unfoldable pub view : Page → Nodes Click
  unfolding loading_state error_state
  view s =
      header s.api_key s.action_loading
      ++ when s.loading (loading_state "Loading API key")
      ++ given s.error (λ message. error_state message (some retry))
      ++ when (not s.loading && is_none s.error) (content s)

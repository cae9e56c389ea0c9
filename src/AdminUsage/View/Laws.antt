-- ===== src/AdminUsage/View/Laws.antt =====
-- What of an event's payload reaches the page.
use slai.Base.{◌≡◌, refl, some}
use slai.Redact.{Json, Fields, redact, is_sensitive_key_usage}
use slai.Redact.Alike.{AlikeFields, fields-Alike}
use slai.Text.{Str}
use slai.Markup.{Formats}
use slai.AdminUsage.{Event}
use slai.AdminUsage.View.{shown_payload, drawer}

-- An event with this payload.
abbrev pub with_payload : Fields → Event → Event
with_payload fields event = record event { raw_json = some fields }

-- The drawer of an event shows nothing of what the sensitive fields of its payload hold, however
-- deep they stand: with payloads that differ only there it is the same.
pub drawer-Alike :
    (formats : Formats) (stringify : Json → Str) (event : Event) {fs gs : Fields}
    → AlikeFields is_sensitive_key_usage fs gs
    → drawer formats stringify (with_payload fs event)
      ≡ drawer formats stringify (with_payload gs event)
unfolding drawer shown_payload redact
drawer-Alike formats stringify event h = rw (fields-Alike is_sensitive_key_usage h) refl

-- ===== src/Audit/View/Laws.antt =====
-- What of a log's metadata reaches the page.
use slai.Base.{◌≡◌, refl, some}
use slai.Redact.{Json, Fields, is_sensitive_key_audit}
use slai.Redact.Alike.{AlikeFields, fields-Alike}
use slai.Text.{Str}
use slai.Dates.{Calendar}
use slai.Markup.{Formats}
use slai.Audit.{Item}
use slai.Audit.View.{redacted_fields, drawer}

abbrev pub with_metadata : Fields → Item → Item
with_metadata fields log = record log { metadata = some fields }

redacted-Alike :
    (log : Item) {fs gs : Fields}
    → AlikeFields is_sensitive_key_audit fs gs
    → redacted_fields (with_metadata fs log) ≡ redacted_fields (with_metadata gs log)
unfolding redacted_fields
redacted-Alike log h = fields-Alike is_sensitive_key_audit h

module _ (formats : Formats) (format_date_time : Str → Str) (preview stringify : Json → Str)
    (to_lower_case to_upper_case : Str → Str) (c : Calendar) (log : Item) where
  -- The drawer of a log shows nothing of what the sensitive fields of its metadata hold.
  pub audit_drawer-Alike :
      {fs gs : Fields}
      → AlikeFields is_sensitive_key_audit fs gs
      → drawer formats format_date_time preview stringify to_lower_case to_upper_case c
          (with_metadata fs log)
        ≡ drawer formats format_date_time preview stringify to_lower_case to_upper_case c
            (with_metadata gs log)
  unfolding drawer redacted_fields
  audit_drawer-Alike h = rw (fields-Alike is_sensitive_key_audit h) refl

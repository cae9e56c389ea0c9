-- ===== src/Badge.antt =====
-- The tones of badges, apps/web/src/components/Badge.tsx.
use slai.Base.{◌||◌, Option, none, some, String, if◌then◌else◌, str_eq}

-- `BadgeProps["tone"]`
pub data BadgeTone : Type 0 where
  neutral green red yellow cyan blue purple : BadgeTone

abbrev pub tone_of : String → BadgeTone
tone_of status =
    if str_eq status "ACTIVE" || str_eq status "billed" || str_eq status "ready"
    then green
    else if str_eq status "SUSPENDED" || str_eq status "pending" || str_eq status "duplicate"
    then yellow
    else if str_eq status "REVOKED" || str_eq status "failed"
    then red
    else if str_eq status "ADMIN"
    then purple
    else if str_eq status "USER"
    then blue
    else neutral

-- The empty status is none of the names.
unfoldable pub status_tone : Option String → BadgeTone
status_tone none = neutral
status_tone (some status) = tone_of status

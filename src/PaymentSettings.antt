-- ===== src/PaymentSettings.antt =====
-- The admin's payment settings, apps/web/src/app/admin/settings/payments/page.tsx. `save` and
-- `upload` run to their answers; `after_save` and `after_upload` are the parts that follow these.
pub mod Laws
use slai.Base.{Bool, true, false, List, [], ◌∷◌, Option, none, some, String, codes}
use slai.Text.{Str, if_truthy}
use slai.Api.Errors.{Failure, Outcome, resolved, rejected, readable_error}

-- `PaymentSettings`
pub record Settings : Type 0 where
  pub provider : String
  pub enabled : Bool
  pub display_name : Str
  pub account_name : Option Str
  pub account_id : Option Str
  pub khqr_image_url : Option Str
  pub instructions : Option Str
  pub updated_at : String

-- `PaymentSettingsInput`
pub record Input : Type 0 where
  pub enabled : Bool
  pub display_name : Str
  pub account_name : Option Str
  pub account_id : Option Str
  pub instructions : Option Str

-- P is the status of the payment provider, and F a chosen file.
pub record Page (P F : Type 0) : Type 0 where
  pub settings : Option Settings
  pub provider_status : Option P
  pub enabled : Bool
  pub display_name : Str
  pub account_name : Str
  pub account_id : Str
  pub instructions : Str
  pub file : Option F
  pub loading : Bool
  pub saving : Bool
  pub uploading : Bool
  pub error : Option String
  pub notice : Option String

-- The calls, less the two of `load`.
pub data Call (F : Type 0) : Type 0 where
  update_settings : Input → Call F
  upload_image : F → Call F

abbrev pub default_name : Str
default_name = codes "Bakong KHQR"

-- `value || "Bakong KHQR"`
abbrev pub or_default_name : Str → Str
or_default_name [] = default_name
or_default_name (c ∷ s) = c ∷ s

-- `value ?? ""`
abbrev pub or_empty : Option Str → Str
or_empty none = []
or_empty (some s) = s

module _ {P F : Type 0} where
  unfoldable pub initial : Page P F
  initial = record {
    settings = none;
    provider_status = none;
    enabled = false;
    display_name = default_name;
    account_name = [];
    account_id = [];
    instructions = [];
    file = none;
    loading = true;
    saving = false;
    uploading = false;
    error = none;
    notice = none;
  }

  unfoldable pub apply_settings : Settings → Page P F → Page P F
  apply_settings next s = record s {
    settings = some next;
    enabled = next.enabled;
    display_name = or_default_name next.display_name;
    account_name = or_empty next.account_name;
    account_id = or_empty next.account_id;
    instructions = or_empty next.instructions;
  }

  -- `Promise.all` of the two calls of `load`, once it has settled.
  unfoldable pub load : Outcome (Settings × P) → Page P F → Page P F
  unfolding apply_settings
  load (resolved (settings, status)) s =
      record (apply_settings settings (record s { error = none })) {
        provider_status = some status;
        loading = false;
      }
  load (rejected e) s = record s { error = some (readable_error e); loading = false }

  unfoldable pub input_of : Page P F → Input
  input_of s = record {
    enabled = s.enabled;
    display_name = s.display_name;
    account_name = if_truthy s.account_name;
    account_id = if_truthy s.account_id;
    instructions = if_truthy s.instructions;
  }

  unfoldable pub after_save : Outcome Settings → Page P F → Page P F
  unfolding apply_settings
  after_save (resolved settings) s = record (apply_settings settings s) {
    notice = some "Payment settings saved.";
    saving = false;
  }
  after_save (rejected e) s = record s { error = some (readable_error e); saving = false }

  unfoldable pub save : Outcome Settings → Page P F → Page P F × List (Call F)
  unfolding after_save input_of
  save answer s = (
    after_save answer (record s { saving = true; error = none; notice = none }),
    update_settings (input_of s) ∷ [],
  )

  unfoldable pub after_upload : Outcome Settings → Page P F → Page P F
  unfolding apply_settings
  after_upload (resolved settings) s = record (apply_settings settings s) {
    file = none;
    notice = some "KHQR image uploaded.";
    uploading = false;
  }
  after_upload (rejected e) s = record s { error = some (readable_error e); uploading = false }

  unfoldable pub upload_file : Option F → Outcome Settings → Page P F → Page P F × List (Call F)
  unfolding after_upload
  upload_file none answer s = (record s { error = some "Select a KHQR image first." }, [])
  upload_file (some file) answer s = (
    after_upload answer (record s { uploading = true; error = none; notice = none }),
    upload_image file ∷ [],
  )

  -- `uploadImage`
  unfoldable pub upload : Outcome Settings → Page P F → Page P F × List (Call F)
  unfolding upload_file
  upload answer s = upload_file s.file answer s

-- ===== src/PaymentSettings/Laws.antt =====
-- What the payment settings page saves, and what an upload does to its form.
use slai.Base.{◌≡◌, ◌≢◌, refl, [], ◌∷◌, Option, none, some}
use slai.Text.{Str, if_truthy}
use slai.Api.Errors.{resolved}
use slai.PaymentSettings.{
  Settings, Input, Page, update_settings, upload_image, or_empty, or_default_name, apply_settings,
  load, input_of, after_save, save, after_upload, upload_file, upload,
}

-- A text that is there is not empty.
abbrev pub IsFilled : Option Str → Type 0
IsFilled none = Unit
IsFilled (some s) = s ≢ []

-- The part of the settings that the form edits.
abbrev pub edited_part : Settings → Input
edited_part settings = record {
  enabled = settings.enabled;
  display_name = settings.display_name;
  account_name = settings.account_name;
  account_id = settings.account_id;
  instructions = settings.instructions;
}

if_truthy-or_empty : (o : Option Str) → IsFilled o → if_truthy (or_empty o) ≡ o
if_truthy-or_empty none h = refl
if_truthy-or_empty (some []) h = elim (h refl) [ ]
if_truthy-or_empty (some (c ∷ s)) h = refl

or_default_name_id : (s : Str) → s ≢ [] → or_default_name s ≡ s
or_default_name_id [] h = elim (h refl) [ ]
or_default_name_id (c ∷ s) h = refl

module _ {P F : Type 0} (s : Page P F) (settings : Settings) where
  -- Settings that have a display name, and no empty text in place of a missing one, are sent back
  -- as they are when they are loaded and saved without an edit, and after the save the page has
  -- the settings of its answer and no error.
  pub load-save :
      (status : P) (answer : Settings)
      → settings.display_name ≢ []
      → IsFilled settings.account_name
      → IsFilled settings.account_id
      → IsFilled settings.instructions
      → let r = save (resolved answer) (load (resolved (settings, status)) s) in
        (r.1 ≡ update_settings (edited_part settings) ∷ [])
        × ((r.0).settings ≡ some answer)
        × ((r.0).error ≡ none)
  unfolding save load input_of apply_settings after_save
  load-save status answer name account id_ instructions = (
    rw
        (
          or_default_name_id settings.display_name name,
          if_truthy-or_empty settings.account_name account,
          if_truthy-or_empty settings.account_id id_,
          if_truthy-or_empty settings.instructions instructions,
        )
        refl,
    refl,
    refl,
  )

  -- An upload replaces what stands in the form by the settings of its answer, also what was typed
  -- and not saved: the next save sends the settings of the answer, if these have a display name
  -- and no empty text in place of a missing one, whatever was in the form before.
  pub upload-loses_edits :
      (file : F) (answer : Settings)
      → s.file ≡ some file
      → settings.display_name ≢ []
      → IsFilled settings.account_name
      → IsFilled settings.account_id
      → IsFilled settings.instructions
      → let r = upload (resolved settings) s in
        (r.1 ≡ upload_image file ∷ [])
        × ((save (resolved answer) r.0).1 ≡ update_settings (edited_part settings) ∷ [])
  unfolding upload upload_file after_upload save input_of apply_settings
  upload-loses_edits file answer chosen name account id_ instructions =
      rw
        (
          chosen,
          or_default_name_id settings.display_name name,
          if_truthy-or_empty settings.account_name account,
          if_truthy-or_empty settings.account_id id_,
          if_truthy-or_empty settings.instructions instructions,
        )
        (refl, refl)

-- ===== src/Packages/Page.antt =====
-- The state and the handlers of `AdminPackagesPage` (apps/web/src/app/admin/packages/page.tsx). A
-- handler takes what its awaited calls come to, and returns the state that it leaves and the calls
-- that it made, in order.
pub mod Laws
use slai.Base.{ℕ, Bool, true, false, not, List, [], ◌∷◌, Option, none, some, String, if◌then◌else◌}
use slai.Text.{Str}
use slai.Api.Errors.{Failure, Outcome, resolved, rejected, readable_error}
use slai.Packages.{Units, CreditPackage, CreditNumber, PackageInput}
use slai.Packages.Credits.{scale_package_input}
use slai.Packages.Form.{
  PackageForm, FieldErrors, empty_form, validate_form, Conversion, input, thrown, form_to_input,
  package_to_form,
}

pub data Panel : Type 0 where
  create : Panel
  edit : CreditPackage → Panel

pub data StatusFilter : Type 0 where
  every active inactive : StatusFilter

pub record Page : Type 0 where
  pub packages : List CreditPackage
  pub form : PackageForm
  pub panel : Option Panel
  pub status_filter : StatusFilter
  pub search : Str
  pub loading : Bool
  pub action_loading : Bool
  pub active_action_id : Option Str
  pub error : Option String
  pub form_error : Option String
  pub field_errors : FieldErrors
  pub notice : Option String

-- The calls of `api.admin.packages`.
pub data Call : Type 0 where
  create_package : PackageInput Units → Call
  update_package : (id : Str) → PackageInput Units → Call
  set_active : (id : Str) (active : Bool) → Call
  list_packages : Call

unfoldable pub load : Page → Outcome (List CreditPackage) → Page
load s (resolved packages) = record s { packages = packages; error = none; loading = false }
load s (rejected e) = record s { error = some (readable_error e); loading = false }

unfoldable pub open_create : Page → Page
open_create s = record s {
  form = empty_form;
  form_error = none;
  field_errors = (validate_form empty_form).0;
  panel = some create;
}

unfoldable pub open_edit : CreditPackage → Page → Page
open_edit pkg s =
    let next_form = package_to_form pkg in
    record s {
      form = next_form;
      form_error = none;
      field_errors = (validate_form next_form).0;
      panel = some (edit pkg);
    }

unfoldable pub call_for : Option Panel → PackageInput CreditNumber → Call
call_for (some (edit pkg)) i = update_package pkg.id (scale_package_input i)
call_for (some create) i = create_package (scale_package_input i)
call_for none i = create_package (scale_package_input i)

unfoldable pub saved_notice : Option Panel → String
saved_notice (some (edit pkg)) = "Package updated."
saved_notice (some create) = "Package created."
saved_notice none = "Package created."

-- The list that is fetched again after a save.
unfoldable pub after_list : Page → Outcome (List CreditPackage) → Page
after_list s (resolved packages) = record s { packages = packages; action_loading = false }
after_list s (rejected e) = record s {
  form_error = some (readable_error e);
  action_loading = false;
}

unfoldable pub after_save :
    Page → Call → Outcome (Unit {0}) → Outcome (List CreditPackage) → Page × List Call
unfolding after_list saved_notice
after_save s call (resolved _) listed = (
  after_list (record s { notice = some (saved_notice s.panel); panel = none }) listed,
  call ∷ list_packages ∷ [],
)
after_save s call (rejected e) listed =
    (record s { form_error = some (readable_error e); action_loading = false }, call ∷ [])

unfoldable pub save_input :
    Page
    → Conversion
    → (Call → Outcome (Unit {0}))
    → Outcome (List CreditPackage)
    → Page × List Call
unfolding after_save call_for
save_input s (thrown message) saved listed =
    (record s { form_error = some message; action_loading = false }, [])
save_input s (input i) saved listed =
    let call = call_for s.panel i in after_save s call (saved call) listed

module _ (to_upper_case : Str → Str) where
  unfoldable pub submit_package :
      Page → (Call → Outcome (Unit {0})) → Outcome (List CreditPackage) → Page × List Call
  unfolding save_input
  submit_package s saved listed =
      let (errors, valid) = validate_form s.form in
      let started = record s {
        field_errors = errors;
        action_loading = true;
        form_error = none;
        error = none;
        notice = none;
      } in
      if valid then save_input started (form_to_input to_upper_case s.form) saved listed else (
        record s {
          field_errors = errors;
          form_error = some "Fix the highlighted fields before saving.";
        },
        [],
      )

unfoldable pub after_toggle_list : Page → Outcome (List CreditPackage) → Page
after_toggle_list s (resolved packages) = record s { packages = packages; active_action_id = none }
after_toggle_list s (rejected e) = record s {
  error = some (readable_error e);
  active_action_id = none;
}

unfoldable pub after_toggle :
    Page → Bool → Call → Outcome (Unit {0}) → Outcome (List CreditPackage) → Page × List Call
unfolding after_toggle_list
after_toggle s next_active call (resolved _) listed = (
  after_toggle_list
      (record s {
        notice = some (if next_active then "Package activated." else "Package deactivated.");
      })
      listed,
  call ∷ list_packages ∷ [],
)
after_toggle s next_active call (rejected e) listed =
    (record s { error = some (readable_error e); active_action_id = none }, call ∷ [])

-- `confirmed` is the answer to `window.confirm`.
unfoldable pub toggle_active :
    CreditPackage
    → (confirmed : Bool) → Page
    → (Call → Outcome (Unit {0}))
    → Outcome (List CreditPackage)
    → Page × List Call
unfolding after_toggle
toggle_active pkg confirmed s saved listed =
    let call = set_active pkg.id (not pkg.active) in
    if confirmed
    then after_toggle (record s { active_action_id = some pkg.id; error = none; notice = none })
        (not pkg.active) call (saved call) listed
    else (s, [])

-- The errors that the page shows: the banner, and the form's inside an open panel.
abbrev shown : Option String → List String
shown none = []
shown (some message) = message ∷ []

abbrev panel_errors : Option Panel → Option String → List String
panel_errors none form_error = []
panel_errors (some panel) form_error = shown form_error

unfoldable pub banner_errors : Page → List String
banner_errors s = shown s.error

unfoldable pub form_errors : Page → List String
form_errors s = panel_errors s.panel s.form_error

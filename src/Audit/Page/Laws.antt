-- ===== src/Audit/Page/Laws.antt =====
-- The audit page as a list page, and the request of a quick range.
use slai.Base.{
  ℕ, ◌+◌, ◌-◌, ◌≡◌, refl, Bool, not, ◌&&◌, [], ◌∷◌, Option, none, some, String, All, if_split,
  if◌then◌else◌, ap, false, arith,
}
use slai.Text.{Str, trimmed}
use slai.Text.Trimmed.{trimmed_idem}
use slai.Api.Errors.{Failure, resolved, rejected}
use slai.Dates.{Calendar, Checked, returned, thrown, iso_unless_empty, to_iso}
use slai.Listing.{ListPage, World, Reach}
use slai.Listing.Laws.{Consistent, Reach-Consistent}
use slai.Audit.{
  Logs, Form, Filter, empty_request, normalize_request, form_to_request, validate_range, limit,
  DateFields,
}
use slai.Audit.Page.{
  Page, Result, initial, load, loaded, load_checked, apply_checked, logs_of, clear_filters, refresh,
  go_to_offset, has_filters, is_some, shows_pages, pages, apply_filters, local_value, quick_form,
  apply_quick_range, Action, opened, applied, cleared, refreshed, retried, went_back, went_on,
  quick_range, edited, selected, step,
}

abbrev pub shown : Page → Filter × Logs
shown s = (s.filters, logs_of s.data_)

-- Trimmed texts, none of them empty, with a limit and an offset.
abbrev pub IsNormal : Filter → Type 0
IsNormal q = normalize_request q ≡ q

pub normalize_request_idem : (f : Filter) → IsNormal (normalize_request f)
unfolding normalize_request
normalize_request_idem f =
    rw
      (
        trimmed_idem f.admin_id,
        trimmed_idem f.action,
        trimmed_idem f.target_type,
        trimmed_idem f.target_id,
        trimmed_idem f.from,
        trimmed_idem f.to,
      )
      refl

-- The rows stay, and the queries are normal.
abbrev pub Quiet : Page → Result → Type 0
Quiet s r = (shown r.0 ≡ shown s) × All IsNormal r.1

load-Quiet : (f : Filter) (s t : Page) → shown t ≡ shown s → Quiet s (load f t)
unfolding load
load-Quiet f s t e = (e, (normalize_request_idem f, tt))

checked-Quiet : (f : Checked Filter) (s t : Page) → shown t ≡ shown s → Quiet s (load_checked f t)
checked-Quiet (returned f) s t e = load-Quiet f s t e
checked-Quiet thrown s t e = (e, tt)

apply_checked-Quiet :
    (m : Option String) (f : Checked Filter) (s : Page) → Quiet s (apply_checked m f s)
apply_checked-Quiet (some message) f s = (refl, tt)
apply_checked-Quiet none f s = checked-Quiet f s (record s { filter_error = none }) refl

unless-Quiet : (b : Bool) (s : Page) (r : Result) → Quiet s r → Quiet s (if b then (s, []) else r)
unless-Quiet b s r h = if_split (Quiet s) b (λ e. (refl, tt)) (λ e. h)

when-Quiet : (b : Bool) (s : Page) (r : Result) → Quiet s r → Quiet s (if b then r else (s, []))
when-Quiet b s r h = if_split (Quiet s) b (λ e. h) (λ e. (refl, tt))

clear-Quiet : (s : Page) → Quiet s (clear_filters s)
unfolding clear_filters load
clear-Quiet s = (refl, (normalize_request_idem empty_request, tt))

go_to-Quiet : (n : ℕ) (s : Page) → Quiet s (go_to_offset n s)
unfolding go_to_offset
go_to-Quiet n s = load-Quiet (record (s.filters) { limit = some limit; offset = some n }) s s refl

module _ (c : Calendar) (days_before : c.Time → ℕ → c.Time)
    (date_fields : c.Time → DateFields) where
  pub step-Quiet :
      (s : Page) (a : Action c days_before date_fields)
      → Quiet s (step c days_before date_fields s a)
  unfolding step apply_filters apply_quick_range clear_filters refresh go_to_offset
  step-Quiet s opened = load-Quiet empty_request s s refl
  step-Quiet s applied =
      unless-Quiet s.loading s (apply_filters c days_before date_fields s) (
        apply_checked-Quiet (validate_range c s.form_filters) (form_to_request c s.form_filters 0)
          s)
  step-Quiet s cleared =
      unless-Quiet (s.loading && not (has_filters s.filters)) s (clear_filters s) (clear-Quiet s)
  step-Quiet s refreshed = unless-Quiet s.loading s (refresh s) (load-Quiet s.filters s s refl)
  step-Quiet s retried =
      when-Quiet (is_some s.error) s (load s.filters s) (load-Quiet s.filters s s refl)
  step-Quiet s went_back =
      when-Quiet (shows_pages s && (pages s).can_go_back) s
        (go_to_offset ((logs_of s.data_).offset - (logs_of s.data_).limit) s) (go_to-Quiet _ s)
  step-Quiet s went_on =
      when-Quiet (shows_pages s && (pages s).can_go_on) s
        (go_to_offset ((logs_of s.data_).offset + (logs_of s.data_).limit) s) (go_to-Quiet _ s)
  step-Quiet s (quick_range now days) =
      unless-Quiet s.loading s (apply_quick_range c days_before date_fields now days s) (
        let form = quick_form c days_before date_fields now days s.form_filters in
        checked-Quiet (form_to_request c form 0) s
          (record s { form_filters = form; filter_error = none }) refl)
  step-Quiet s (edited form) = (refl, tt)
  step-Quiet s (selected log) = (refl, tt)

  pub loaded-resolved :
      (q : Filter) (r : Logs) (s : Page) → shown (loaded q (resolved r) s) ≡ (q, r)
  unfolding loaded
  loaded-resolved q r s = refl

  pub loaded-rejected :
      (q : Filter) (e : Failure) (s : Page) → shown (loaded q (rejected e) s) ≡ shown s
  unfolding loaded
  loaded-rejected q e s = refl

  -- The audit page is a list page.
  abbrev pub audit_list : ListPage
  audit_list = record {
    State = Page;
    Action = Action c days_before date_fields;
    Query = Filter;
    Rows = Logs;
    step = step c days_before date_fields;
    arrive = loaded;
    shown = shown;
    IsProper = IsNormal;
    step_shown = λ s a. (step-Quiet s a).0;
    step_proper = λ s a. (step-Quiet s a).1;
    arrive_resolved = loaded-resolved;
    arrive_rejected = loaded-rejected;
  }

  -- Whatever is done on the audit page after it opened and in whatever order the answers come,
  -- every list is asked for with a limit, an offset and trimmed filters, and the logs on the
  -- screen with the filters shown as active are together one answer that came, or what the page
  -- showed at first.
  pub audit-Consistent :
      (w : World audit_list) → Reach audit_list initial w → Consistent audit_list initial w
  audit-Consistent = Reach-Consistent audit_list initial

  -- A request whose texts are trimmed before it is normalized twice.
  trims :
      (form : Form) (from to : Option Str)
      → normalize_request (
          normalize_request (record {
            admin_id = trimmed (some form.admin_id);
            action = trimmed (some form.action);
            target_type = trimmed (some form.target_type);
            target_id = trimmed (some form.target_id);
            from = from;
            to = to;
            limit = some limit;
            offset = some 0;
          }))
        ≡ normalize_request (record {
          admin_id = some form.admin_id;
          action = some form.action;
          target_type = some form.target_type;
          target_id = some form.target_id;
          from = from;
          to = to;
          limit = some limit;
          offset = some 0;
        })
  unfolding normalize_request
  trims form from to =
      rw
        (
          trimmed_idem (some form.admin_id),
          trimmed_idem (some form.action),
          trimmed_idem (some form.target_type),
          trimmed_idem (some form.target_id),
          trimmed_idem (some form.admin_id),
          trimmed_idem (some form.action),
          trimmed_idem (some form.target_type),
          trimmed_idem (some form.target_id),
          trimmed_idem from,
          trimmed_idem to,
        )
        refl

  iso_of_date :
      (value : Str) (t : c.Time)
      → c.get_time [] ≡ none
      → c.get_time value ≡ some t
      → iso_unless_empty c value ≡ returned (some (c.to_iso_string t))
  unfolding iso_unless_empty to_iso
  iso_of_date [] t blank h = ground (arith, blank, h)
  iso_of_date (x ∷ value) t blank h = rw h refl

  module _ (s : Page) (now u v : c.Time) (days : ℕ) where
    -- A quick range on a page that is not loading, when the browser reads back both local values
    -- that the page writes and the empty text is no date: the range is not checked and no
    -- conversion throws, so that exactly one list is asked for, from and to the times that were
    -- read back and with the form's other filters, and the form shows the range.
    quick_range-asks :
        s.loading ≡ false
        → c.get_time [] ≡ none
        → c.get_time (local_value c days_before date_fields now) ≡ some u
        → c.get_time (local_value c days_before date_fields (days_before now days)) ≡ some v
        → let r = step c days_before date_fields s (quick_range now days) in
          (r.1
            ≡ normalize_request (record {
              admin_id = some s.form_filters.admin_id;
              action = some s.form_filters.action;
              target_type = some s.form_filters.target_type;
              target_id = some s.form_filters.target_id;
              from = some (c.to_iso_string v);
              to = some (c.to_iso_string u);
              limit = some limit;
              offset = some 0;
            })
              ∷ [])
          × ((r.0).form_filters ≡ quick_form c days_before date_fields now days s.form_filters)
    unfolding step apply_quick_range form_to_request load quick_form
    quick_range-asks idle blank hu hv =
        rw (idle, iso_of_date _ u blank hu, iso_of_date _ v blank hv)
          (
            ap (λ q. q ∷ [])
                (trims s.form_filters (some (c.to_iso_string v)) (some (c.to_iso_string u))),
            refl,
          )

-- ===== src/AdminUsage/Page/Laws.antt =====
-- The usage page as a list page, its paging, and two of its errors.
use slai.Base.{
  ℕ, ◌+◌, ◌-◌, ◌≡◌, refl, not, ◌||◌, ◌&&◌, List, [], ◌∷◌, Option, none, some, String, length, All,
  if_split,
}
use slai.Text.{Str}
use slai.Api.Errors.{Failure, Outcome, resolved, rejected}
use slai.Dates.{Calendar, Checked, returned, thrown}
use slai.Listing.{ListPage}
use slai.Sync.{SyncResult}
use slai.AdminUsage.{
  Event, Filter, normalize, first_page, limit, pagination, form_filters_to_api_filter,
  validate_date_range,
}
use slai.AdminUsage.Laws.{normalize_idem}
use slai.AdminUsage.Page.{
  Page, Call, list_usage, sync_usage, load, loaded, load_checked, apply_checked, Action, opened,
  applied, cleared, refreshed, retried, sync_started, went_back, went_on, edited, selected,
  sync_answered, apply_filters, finish_sync, step, offset_of, is_some, shows_pages, has_filters,
}

-- The lists among the calls.
abbrev pub queries : List Call → List Filter
queries [] = []
queries (list_usage q ∷ calls) = q ∷ queries calls
queries (sync_usage f ∷ calls) = queries calls

abbrev pub shown : Page → Filter × List Event
shown s = (s.filters, s.usage)

-- Trimmed texts, none of them empty, with a limit and an offset.
abbrev pub IsNormal : Filter → Type 0
IsNormal q = normalize q ≡ q

-- The rows stay, and the queries are normal.
abbrev pub Quiet : Page → Page × List Call → Type 0
Quiet s r = (shown r.0 ≡ shown s) × All IsNormal (queries r.1)

load-Quiet : (f : Filter) (s t : Page) → shown t ≡ shown s → Quiet s (load f t)
unfolding load
load-Quiet f s t e = (e, (normalize_idem f, tt))

module _ (c : Calendar) (format_units : ℕ → Str) where
  checked-Quiet : (f : Checked Filter) (s t : Page) → shown t ≡ shown s → Quiet s (load_checked f t)
  checked-Quiet (returned f) s t e = load-Quiet f s t e
  checked-Quiet thrown s t e = (e, tt)

  apply-Quiet : (s : Page) → Quiet s (apply_filters c format_units s)
  unfolding apply_filters
  apply-Quiet s =
      go (validate_date_range c s.form_filters) (form_filters_to_api_filter c s.form_filters 0)
    where
      go : (m : Option String) (f : Checked Filter) → Quiet s (apply_checked m f s)
      go (some message) f = (refl, tt)
      go none f = checked-Quiet f s (record s { filter_error = none; notice = none }) refl

  finish-Quiet :
      (f : Filter) (o : Outcome SyncResult) (s : Page) → Quiet s (finish_sync c format_units f o s)
  unfolding finish_sync
  finish-Quiet f (resolved r) s = (refl, (normalize_idem (record f { offset = some 0 }), tt))
  finish-Quiet f (rejected e) s = (refl, tt)

  pub step-Quiet : (s : Page) (a : Action) → Quiet s (step c format_units s a)
  unfolding step
  step-Quiet s opened = load-Quiet first_page s s refl
  step-Quiet s applied = if_split (Quiet s) s.loading (λ e. (refl, tt)) (λ e. apply-Quiet s)
  step-Quiet s cleared =
      if_split (Quiet s) (s.loading && not (has_filters s.filters)) (λ e. (refl, tt))
        (λ e. (refl, (normalize_idem first_page, tt)))
  step-Quiet s refreshed =
      if_split (Quiet s) (s.loading || s.syncing) (λ e. (refl, tt))
        (λ e. (refl, (normalize_idem s.filters, tt)))
  step-Quiet s retried =
      if_split (Quiet s) (is_some s.error) (λ e. load-Quiet s.filters s s refl) (λ e. (refl, tt))
  step-Quiet s sync_started =
      if_split (Quiet s) (s.loading || s.syncing) (λ e. (refl, tt)) (λ e. (refl, tt))
  step-Quiet s went_back =
      if_split (Quiet s)
        (shows_pages s && (pagination (length s.usage) limit (offset_of s) s.loading).can_go_back)
        (λ e. (
          refl,
          (
            normalize_idem
                (record (s.filters) { offset = some (offset_of s - limit); limit = some limit }),
            tt,
          ),
        ))
        (λ e. (refl, tt))
  step-Quiet s went_on =
      if_split (Quiet s)
        (shows_pages s && (pagination (length s.usage) limit (offset_of s) s.loading).can_go_on)
        (λ e. (
          refl,
          (
            normalize_idem
                (record (s.filters) { offset = some (offset_of s + limit); limit = some limit }),
            tt,
          ),
        ))
        (λ e. (refl, tt))
  step-Quiet s (edited form) = (refl, tt)
  step-Quiet s (selected event) = (refl, tt)
  step-Quiet s (sync_answered f o) = finish-Quiet f o s

  pub loaded-resolved :
      (q : Filter) (r : List Event) (s : Page) → shown (loaded q (resolved r) s) ≡ (q, r)
  unfolding loaded
  loaded-resolved q r s = refl

  pub loaded-rejected :
      (q : Filter) (e : Failure) (s : Page) → shown (loaded q (rejected e) s) ≡ shown s
  unfolding loaded
  loaded-rejected q e s = refl

  -- The usage page is a list page.
  abbrev pub usage_list : ListPage
  usage_list = record {
    State = Page;
    Action = Action;
    Query = Filter;
    Rows = List Event;
    step = λ s a. let (t, calls) = step c format_units s a in (t, queries calls);
    arrive = loaded;
    shown = shown;
    IsProper = IsNormal;
    step_shown = λ s a. (step-Quiet s a).0;
    step_proper = λ s a. (step-Quiet s a).1;
    arrive_resolved = loaded-resolved;
    arrive_rejected = loaded-rejected;
  }

-- ===== src/AdminUsage/Page/Runs.antt =====
-- Runs of the usage page: its lists in any order of events, paging there and back, and a
-- synchronisation during which other filters are applied.
use slai.Base.{
  ℕ, ◌+◌, ◌-◌, ◌≡◌, refl, true, false, List, [], ◌∷◌, none, some, length, arith, ap, sym, ◌∙◌, ◌==◌,
  ltb,
}
use slai.Text.{Str}
use slai.Api.Errors.{resolved}
use slai.Dates.{Calendar, returned, iso_unless_empty, to_iso}
use slai.Listing.{World, Reach}
use slai.Listing.Laws.{Consistent, Reach-Consistent}
use slai.Sync.{SyncResult}
use slai.AdminUsage.{
  Event, Form, Filter, normalize, limit, pagination, form_filters_to_api_filter,
  validate_date_range,
}
use slai.AdminUsage.Laws.{page_query, page_query-page_query}
use slai.AdminUsage.Page.{
  Page, Call, list_usage, sync_usage, initial, load, loaded, start_sync, go_to_offset, applied,
  sync_started, went_back, went_on, edited, sync_answered, apply_filters, finish_sync, step,
}
use slai.AdminUsage.Page.Laws.{usage_list}

later_page : (n : ℕ) → (n + limit == 0) ≡ false
later_page n = ground arith

back_again : (n : ℕ) → n + limit - limit ≡ n
back_again n = omega arith

module _ (c : Calendar) (format_units : ℕ → Str) where
  -- Whatever is done on the usage page after it opened and in whatever order the answers come,
  -- every list is asked for with a limit, an offset and trimmed filters, and the events on the
  -- screen with the filters shown as active are together one answer that came, or what the page
  -- showed at first.
  pub usage-Consistent :
      (w : World (usage_list c format_units))
      → Reach (usage_list c format_units) initial w
      → Consistent (usage_list c format_units) initial w
  usage-Consistent = Reach-Consistent (usage_list c format_units) initial

  module _ (s : Page) (n : ℕ) (idle : s.loading ≡ false) (fine : s.error ≡ none) where
    -- What a page asks for when it loads the page of events at `at`.
    abbrev asks_for : ℕ → Page × List Call
    asks_for at = (
      record s { notice = none; loading = true; error = none },
      list_usage (page_query at s.filters) ∷ [],
    )

    went_on-asks_for :
        s.filters.offset ≡ some n
        → length s.usage ≡ limit
        → step c format_units s went_on ≡ asks_for (n + limit)
    unfolding step go_to_offset load page_query pagination
    went_on-asks_for at full = rw (at, idle, fine, full) refl

    went_back-asks_for :
        s.filters.offset ≡ some (n + limit)
        → ltb 0 (length s.usage) ≡ true
        → step c format_units s went_back ≡ asks_for n
    unfolding step go_to_offset load page_query pagination
    went_back-asks_for at rows = rw (at, idle, fine, rows, later_page n, back_again n) refl

  module _ (s : Page) (n : ℕ) (row : Event) (rows : List Event) where
    -- From a full page of events that is not loading and shows no error, Next asks for the next
    -- fifty with the same filters, and Previous after an answer with at least one event asks for
    -- the query on the screen before, when that is a query of fifty with trimmed filters.
    pub there_and_back :
        page_query n s.filters ≡ s.filters
        → s.loading ≡ false
        → s.error ≡ none
        → length s.usage ≡ limit
        → let next = step c format_units s went_on in
          let back =
            step c format_units
              (loaded (page_query (n + limit) s.filters) (resolved (row ∷ rows)) next.0)
              went_back in
          (next.1 ≡ list_usage (page_query (n + limit) s.filters) ∷ [])
          × (back.1 ≡ list_usage s.filters ∷ [])
    unfolding loaded page_query
    there_and_back normal idle fine full = (
      ap (λ r. r.1) next,
      ap (λ r. r.1) (went_back-asks_for answered n refl (ap (λ r. r.0.error) next) refl some_row)
          ∙ ap (λ q. list_usage q ∷ []) (page_query-page_query n (n + limit) s.filters ∙ normal),
    )
      where
        next : step c format_units s went_on ≡ asks_for s n idle fine (n + limit)
        next = went_on-asks_for s n idle fine (sym (ap (λ f. f.offset) normal)) full

        some_row : ltb 0 (length (row ∷ rows)) ≡ true
        some_row = ground arith

        answered : Page
        answered =
            loaded (page_query (n + limit) s.filters) (resolved (row ∷ rows))
              (step c format_units s went_on).0

  module _ (s : Page) (form : Form) (f : Filter) (r : SyncResult) (rows restored : List Event) where
    -- A synchronisation is started from an idle page, then other filters are applied, which pass
    -- the check of the range and whose dates convert, and their list and the synchronisation are
    -- answered. The page then loads the first page of the filters at the start of the
    -- synchronisation again, and these replace the filters that were applied meanwhile, while the
    -- form keeps those.
    pub sync-restores_filters :
        s.loading ≡ false
        → s.syncing ≡ false
        → validate_date_range c form ≡ none
        → form_filters_to_api_filter c form 0 ≡ returned f
        → let started = step c format_units s sync_started in
          let edit = (step c format_units started.0 (edited form)).0 in
          let apply_ = step c format_units edit applied in
          let listed = loaded (normalize f) (resolved rows) apply_.0 in
          let synced = step c format_units listed (sync_answered s.filters (resolved r)) in
          let old = normalize (record (s.filters) { offset = some 0 }) in
          let final = loaded old (resolved restored) synced.0 in
          (started.1 ≡ sync_usage s.filters ∷ [])
          × (apply_.1 ≡ list_usage (normalize f) ∷ [])
          × (listed.filters ≡ normalize f)
          × (synced.1 ≡ list_usage old ∷ [])
          × (final.filters ≡ old)
          × (final.form_filters ≡ form)
    unfolding step start_sync apply_filters load loaded finish_sync
    sync-restores_filters not_loading not_syncing fits converts =
        rw (not_loading, not_syncing, fits, converts) (refl, refl, refl, refl, refl, refl)

  module _ (s : Page) where
    -- With one end of the date range only, and that no date, applying the filters passes the check
    -- of the range and stops at the conversion: nothing is asked for, the filters stay, no error
    -- is shown, and an earlier message is cleared.
    apply-half_range :
        s.loading ≡ false
        → (x : ℕ) (rest : Str) → s.form_filters.from ≡ x ∷ rest
        → s.form_filters.to ≡ []
        → c.get_time (x ∷ rest) ≡ none
        → step c format_units s applied ≡ (record s { filter_error = none; notice = none }, [])
    unfolding step apply_filters form_filters_to_api_filter validate_date_range iso_unless_empty
        to_iso
    apply-half_range idle x rest from to invalid = rw (idle, from, to, invalid) refl

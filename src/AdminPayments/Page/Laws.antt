-- ===== src/AdminPayments/Page/Laws.antt =====
-- The requests of the payments page, and what its answers do to the open payment.
use slai.Base.{
  ℕ, ◌+◌, ◌-◌, leb, ◌==◌, ◌≡◌, refl, Bool, true, false, ◌||◌, List, [], ◌∷◌, none, some, String,
  length, All, All-append, if_split, option_split,
}
use slai.Text.{Str}
use slai.Api.Errors.{Failure, Outcome, resolved, rejected, readable_error}
use slai.Dates.{Calendar}
use slai.AdminPayments.{
  Item, Filters, default_filters, Query, to_api_filter, validate_date_range, limit,
}
use slai.AdminPayments.Page.{
  Payments, Call, list_payments, load, apply_filters, after_action, approve, reject, approve_error,
  Event, list_arrived, details_arrived, opened, closed, edited, applied, cleared, refreshed,
  went_back, went_on, quick_filtered, approved, refused, step, run,
}

module _ (c : Calendar) where
  -- A list is asked for with filters whose date range passes, fifty payments at a time.
  pub record IsListQuery (q : Query) : Type 0 where
    pub filters : Filters
    pub offset : ℕ
    pub range : validate_date_range c filters ≡ none
    pub shape : q ≡ to_api_filter c filters offset

  abbrev pub IsAllowed : Call → Type 0
  IsAllowed (list_payments q) = IsListQuery q
  IsAllowed _ = Unit

  abbrev Good : Payments × List Call → Type 0
  Good r = All IsAllowed r.1

  load-allowed : (n : ℕ) (f : Filters) (s : Payments) → Good (load c n f s)
  unfolding load
  load-allowed n f s =
      option_split Good (validate_date_range c f)
        (λ e. (record { filters = f; offset = n; range = e; shape = refl }, tt)) (λ message e. tt)

  apply-allowed : (s : Payments) → Good (apply_filters c s)
  unfolding apply_filters
  apply-allowed s =
      option_split Good (validate_date_range c s.draft_filters)
        (λ e. load-allowed 0 s.draft_filters (record s { applied_filters = s.draft_filters }))
        (λ message e. tt)

  after_action-allowed :
      (failed : Failure → String) (notice id : String) (s : Payments) (details : Outcome Item)
      → Good (after_action c failed notice id s details)
  unfolding after_action
  after_action-allowed failed notice id s (resolved p) = (
    tt,
    load-allowed s.offset s.applied_filters (record s { notice = some notice; selected = some p }),
  )
  after_action-allowed failed notice id s (rejected e) = (tt, tt)

  approve-allowed :
      (p : Item) (reference note : Str) (s : Payments) (done : Outcome (Unit {0}))
      (details : Outcome Item)
      → Good (approve c p reference note s done details)
  unfolding approve
  approve-allowed p reference note s (resolved u) details = (
    tt,
    after_action-allowed approve_error "Payment approved and credits added." p.id
        (record s { action_loading = true; action_error = none; notice = none }) details,
  )
  approve-allowed p reference note s (rejected e) details = (tt, tt)

  reject-allowed :
      (p : Item) (reason : Str) (confirmed : Bool) (s : Payments) (done : Outcome (Unit {0}))
      (details : Outcome Item)
      → Good (reject c p reason confirmed s done details)
  unfolding reject
  reject-allowed p reason false s done details = tt
  reject-allowed p reason true s (resolved u) details = (
    tt,
    after_action-allowed readable_error "Payment rejected." p.id
        (record s { action_loading = true; action_error = none; notice = none }) details,
  )
  reject-allowed p reason true s (rejected e) details = (tt, tt)

  step-allowed : (s : Payments) (e : Event) → Good (step c s e)
  unfolding step
  step-allowed s (list_arrived answer) = tt
  step-allowed s (details_arrived answer) = tt
  step-allowed s (opened payment) = (tt, tt)
  step-allowed s closed = tt
  step-allowed s (edited filters) = tt
  step-allowed s applied = apply-allowed s
  step-allowed s cleared =
      load-allowed 0 default_filters
        (record s { draft_filters = default_filters; applied_filters = default_filters })
  step-allowed s refreshed = load-allowed s.offset s.applied_filters s
  step-allowed s went_back =
      if_split Good (s.offset == 0 || s.loading) (λ e. tt)
        (λ e. load-allowed (s.offset - limit) s.applied_filters s)
  step-allowed s went_on =
      if_split Good (leb s.total (s.offset + length s.items) || s.loading) (λ e. tt)
        (λ e. load-allowed (s.offset + limit) s.applied_filters s)
  step-allowed s (quick_filtered status) =
      let next = record (s.draft_filters) { status = status } in
      load-allowed 0 next (record s { draft_filters = next; applied_filters = next })
  step-allowed s (approved p reference note done details) =
      approve-allowed p reference note s done details
  step-allowed s (refused p reason confirmed done details) =
      reject-allowed p reason confirmed s done details

  -- After any events from any state, each list that the page has asked for was asked for with the
  -- query that `to_api_filter` makes of some filters whose date range passes.
  pub run-lists_valid : (es : List Event) (s : Payments) → All IsAllowed (run c s es).1
  unfolding run
  run-lists_valid [] s = tt
  run-lists_valid (e ∷ es) s =
      All-append IsAllowed (step c s e).1 (run c (step c s e).0 es).1 (step-allowed s e)
        (run-lists_valid es (step c s e).0)

  -- When a second payment is opened before the details of the first have come, and those come last,
  -- the payment under review is the one of the first details.
  pub late_details-selected :
      (s : Payments) (first second first_details second_details : Item)
      → (run c s (
          opened first
          ∷ opened second
          ∷ details_arrived (resolved second_details)
          ∷ details_arrived (resolved first_details)
          ∷ [])).0.selected
        ≡ some first_details
  unfolding run step
  late_details-selected s first second first_details second_details = refl

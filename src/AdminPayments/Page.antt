-- ===== src/AdminPayments/Page.antt =====
-- The state and the handlers of `AdminPaymentsPage`. The list and the details are asked for
-- without waiting, so that their answers are events of their own, in any order; the calls of
-- `onApprove` and `onReject` are one event with their answers, and nothing comes between these.
pub mod Laws
use slai.Base.{
  ℕ, ◌+◌, ◌-◌, leb, ◌==◌, Bool, true, false, not, ◌&&◌, ◌||◌, List, [], ◌∷◌, ◌++◌, Option, none,
  some, String, if◌then◌else◌, str_eq, length,
}
use slai.Text.{Str}
use slai.Api.Errors.{Failure, api_error, Outcome, resolved, rejected, readable_error}
use slai.Dates.{Calendar}
use slai.AdminPayments.{
  Item, Filters, default_filters, Query, to_api_filter, validate_date_range, limit,
}

pub record Payments : Type 0 where
  pub items : List Item
  pub draft_filters : Filters
  pub applied_filters : Filters
  pub filter_error : Option String
  pub offset : ℕ
  pub total : ℕ
  pub selected : Option Item
  pub loading : Bool
  pub action_loading : Bool
  pub error : Option String
  pub action_error : Option String
  pub notice : Option String

pub data Call : Type 0 where
  list_payments : Query → Call
  get_payment : (id : String) → Call
  approve_payment : (id : String) (reference note : Str) → Call
  reject_payment : (id : String) (reason : Str) → Call

pub record Listing : Type 0 where
  pub items : List Item
  pub total : ℕ
  pub offset : ℕ

unfoldable pub initial : Payments
initial = record {
  items = [];
  draft_filters = default_filters;
  applied_filters = default_filters;
  filter_error = none;
  offset = 0;
  total = 0;
  selected = none;
  loading = true;
  action_loading = false;
  error = none;
  action_error = none;
  notice = none;
}

abbrev is_duplicate_code : Option String → Bool
is_duplicate_code none = false
is_duplicate_code (some code) = str_eq code "duplicate_payment_reference"

abbrev is_duplicate_reference : Failure → Bool
is_duplicate_reference (api_error message status code) = is_duplicate_code code
is_duplicate_reference _ = false

unfoldable pub approve_error : Failure → String
approve_error e =
    if is_duplicate_reference e
    then "This verified payment reference has already been used."
    else readable_error e

unfoldable pub list_answered : Payments → Outcome Listing → Payments
list_answered s (resolved r) = record s {
  items = r.items;
  total = r.total;
  offset = r.offset;
  loading = false;
}
list_answered s (rejected e) = record s { error = some (readable_error e); loading = false }

unfoldable pub details_answered : Payments → Outcome Item → Payments
details_answered s (resolved p) = record s { selected = some p }
details_answered s (rejected e) = record s { action_error = some (readable_error e) }

unfoldable pub open_payment : Item → Payments → Payments × List Call
open_payment payment s = (
  record s { selected = some payment; action_error = none; notice = none },
  get_payment payment.id ∷ [],
)

unfoldable pub close : Payments → Payments
close s = record s { selected = none; action_error = none; notice = none }

abbrev idle : Payments → Payments
idle s = record s { action_loading = false }

module _ (c : Calendar) where
  -- `load(nextOffset, filters)`, up to its request.
  unfoldable pub load : (next_offset : ℕ) → Filters → Payments → Payments × List Call
  load next_offset filters s = elim (validate_date_range c filters) [
    | some message ↦ (record s { filter_error = some message }, [])
    | none ↦ (
      record s { filter_error = none; loading = true; error = none },
      list_payments (to_api_filter c filters next_offset) ∷ [],
    )
  ]

  unfoldable pub apply_filters : Payments → Payments × List Call
  unfolding load
  apply_filters s = elim (validate_date_range c s.draft_filters) [
    | some message ↦ (record s { filter_error = some message }, [])
    | none ↦ load 0 s.draft_filters (record s { applied_filters = s.draft_filters })
  ]

  unfoldable pub quick_filter : Str → Payments → Payments × List Call
  unfolding load
  quick_filter status s =
      let next = record (s.draft_filters) { status = status } in
      load 0 next (record s { draft_filters = next; applied_filters = next })

  unfoldable pub clear_filters : Payments → Payments × List Call
  unfolding load
  clear_filters s =
      load 0 default_filters
        (record s { draft_filters = default_filters; applied_filters = default_filters })

  unfoldable pub previous_page : Payments → Payments × List Call
  unfolding load
  previous_page s =
      if s.offset == 0 || s.loading then (s, []) else load (s.offset - limit) s.applied_filters s

  unfoldable pub next_page : Payments → Payments × List Call
  unfolding load
  next_page s =
      if leb s.total (s.offset + length s.items) || s.loading
      then (s, [])
      else load (s.offset + limit) s.applied_filters s

  -- `refreshSelected`, then `load(offset)`, after an action of the API; `failed` words a failure.
  unfoldable pub after_action :
      (failed : Failure → String) (notice : String) (id : String)
      → Payments
      → (details : Outcome Item) → Payments × List Call
  unfolding load
  after_action failed notice id s (resolved p) =
      let r =
        load s.offset s.applied_filters (record s { notice = some notice; selected = some p }) in
      (idle r.0, get_payment id ∷ r.1)
  after_action failed notice id s (rejected e) = (
    record s { notice = some notice; action_error = some (failed e); action_loading = false },
    get_payment id ∷ [],
  )

  abbrev act :
      (failed : Failure → String) (notice : String) (id : String) (call : Call)
      → Payments
      → (done : Outcome (Unit {0})) (details : Outcome Item) → Payments × List Call
  act failed notice id call s (resolved _) details =
      let r =
        after_action failed notice id
          (record s { action_loading = true; action_error = none; notice = none }) details in
      (r.0, call ∷ r.1)
  act failed notice id call s (rejected e) details = (
    record s { action_loading = false; action_error = some (failed e); notice = none },
    call ∷ [],
  )

  unfoldable pub approve :
      Item
      → (reference note : Str) → Payments
      → (done : Outcome (Unit {0})) (details : Outcome Item) → Payments × List Call
  unfolding after_action approve_error
  approve payment reference note s done details =
      act approve_error "Payment approved and credits added." payment.id
        (approve_payment payment.id reference note) s done details

  -- `confirmed` is the answer of `window.confirm`.
  unfoldable pub reject :
      Item
      → (reason : Str) (confirmed : Bool) → Payments
      → (done : Outcome (Unit {0})) (details : Outcome Item) → Payments × List Call
  unfolding after_action
  reject payment reason confirmed s done details =
      let r =
        act readable_error "Payment rejected." payment.id (reject_payment payment.id reason) s done
          details in
      if not confirmed then (s, []) else r

pub data Event : Type 0 where
  list_arrived : Outcome Listing → Event
  details_arrived : Outcome Item → Event
  opened : Item → Event
  closed : Event
  edited : Filters → Event
  applied cleared refreshed went_back went_on : Event
  quick_filtered : (status : Str) → Event
  approved :
      Item → (reference note : Str) (done : Outcome (Unit {0})) (details : Outcome Item) → Event
  refused :
      Item
      → (reason : Str) (confirmed : Bool) (done : Outcome (Unit {0})) (details : Outcome Item)
      → Event

module _ (c : Calendar) where
  unfoldable pub step : Payments → Event → Payments × List Call
  unfolding list_answered details_answered open_payment close load apply_filters quick_filter
      clear_filters previous_page next_page approve reject
  step s (list_arrived answer) = (list_answered s answer, [])
  step s (details_arrived answer) = (details_answered s answer, [])
  step s (opened payment) = open_payment payment s
  step s closed = (close s, [])
  step s (edited filters) = (record s { draft_filters = filters }, [])
  step s applied = apply_filters c s
  step s cleared = clear_filters c s
  step s refreshed = load c s.offset s.applied_filters s
  step s went_back = previous_page c s
  step s went_on = next_page c s
  step s (quick_filtered status) = quick_filter c status s
  step s (approved payment reference note done details) =
      approve c payment reference note s done details
  step s (refused payment reason confirmed done details) =
      reject c payment reason confirmed s done details

  unfoldable pub run : Payments → List Event → Payments × List Call
  run s [] = (s, [])
  run s (e ∷ es) = let (t, calls) = step s e in let (u, later) = run t es in (u, calls ++ later)

-- ===== src/AdminUsers.antt =====
-- The admin's list of users, apps/web/src/app/admin/users/page.tsx: `AdminUsersPage`. Every answer
-- is an event of its own: those of `load`, and the two that `updateStatus` awaits one after the
-- other, with the filters that it keeps since its click.
pub mod Laws
use slai.Base.{
  ℕ, ◌+◌, ◌-◌, leb, ltb, min, ◌==◌, Bool, true, false, not, ◌||◌, ◌&&◌, List, [], ◌∷◌, ◌++◌, Option,
  none, some, String, if◌then◌else◌, codes, length, filter_by,
}
use slai.Text.{Str}
use slai.Api.Errors.{Outcome, resolved, rejected, readable_error}
use slai.Api.User.{Role, user, admin, UserStatus, active, suspended, AuthProvider, password, google}

abbrev pub limit : ℕ
limit = 50

-- The fields of `AdminUserListItem` that the page's logic reads.
pub record Item : Type 0 where
  pub id : String
  pub email : Str
  pub role : Role
  pub status : UserStatus
  pub auth_provider : AuthProvider

-- `AdminUserListResponse`
pub record Listing : Type 0 where
  pub items : List Item
  pub limit : ℕ
  pub offset : ℕ
  pub total : ℕ

-- `AdminUserFilter`
pub record Filter : Type 0 where
  pub q : Option Str
  pub status : Option Str
  pub role : Option Str
  pub limit : Option ℕ
  pub offset : Option ℕ

abbrev pub first_page : Filter
first_page = record { q = none; status = none; role = none; limit = some limit; offset = some 0 }

unfoldable pub auth_provider_label : AuthProvider → String
auth_provider_label google = "Google"
auth_provider_label password = "Password"

abbrev pub status_name : UserStatus → Str
status_name active = codes "ACTIVE"
status_name suspended = codes "SUSPENDED"

pub record Page : Type 0 where
  pub data_ : Option Listing
  pub filters : Filter
  pub draft_filters : Filter
  pub loading : Bool
  pub action_user_id : Option String
  pub error : Option String
  pub notice : Option Str

pub data Call : Type 0 where
  list_users reload_users : Filter → Call
  update_status : (id : String) → UserStatus → Call

-- The page after a handler, and its calls.
abbrev pub Result : Type 0
Result = Page × List Call

unfoldable pub load : (next_filters : Filter) → Page → Result
load next_filters s = (record s { loading = true; error = none }, list_users next_filters ∷ [])

unfoldable pub loaded : (next_filters : Filter) → Outcome Listing → Page → Page
loaded next_filters (resolved response) s = record s {
  data_ = some response;
  filters = next_filters;
  draft_filters = next_filters;
  loading = false;
}
loaded next_filters (rejected e) s = record s { error = some (readable_error e); loading = false }

unfoldable pub submit : Page → Result
unfolding load
submit s =
    load (record (s.draft_filters) { limit = some limit; offset = some 0 })
      (record s { notice = none })

unfoldable pub reset_filters : Page → Result
unfolding load
reset_filters s = load first_page (record s { draft_filters = first_page })

-- `confirmed` is what `window.confirm` returned.
unfoldable pub start_update : Item → UserStatus → (confirmed : Bool) → Page → Result
start_update item status confirmed s =
    if confirmed
    then (
      record s { action_user_id = some item.id; error = none; notice = none },
      update_status item.id status ∷ [],
    )
    else (s, [])

-- The answer to the change; `filters` are those of the click.
unfoldable pub after_update {ℓ} :
    {A : Type ℓ} → (filters : Filter) → Item → UserStatus → Outcome A → Page → Result
after_update filters item status (resolved a) s = (
  record s { notice = some (item.email ++ codes " is now " ++ status_name status ++ codes ".") },
  reload_users filters ∷ [],
)
after_update filters item status (rejected e) s =
    (record s { error = some (readable_error e); action_user_id = none }, [])

-- The answer to the list that is asked for after a change.
unfoldable pub after_reload : Outcome Listing → Page → Page
after_reload (resolved response) s = record s { data_ = some response; action_user_id = none }
after_reload (rejected e) s = record s { error = some (readable_error e); action_user_id = none }

-- `data?.items ?? []`, `data?.offset ?? 0` and `data?.total ?? 0`
abbrev pub listing_of : Option Listing → Listing
listing_of none = record { items = []; limit = limit; offset = 0; total = 0 }
listing_of (some response) = response

unfoldable pub range_start : Listing → ℕ
range_start l = if l.total == 0 then 0 else l.offset + 1

unfoldable pub range_end : Listing → ℕ
range_end l = min (l.offset + length l.items) l.total

pub record Counts : Type 0 where
  pub active : ℕ
  pub suspended : ℕ
  pub admin : ℕ

abbrev pub is_active : Item → Bool
is_active item = elim (item.status) [ active ↦ true | suspended ↦ false ]

abbrev pub is_suspended : Item → Bool
is_suspended item = elim (item.status) [ active ↦ false | suspended ↦ true ]

abbrev pub is_admin_item : Item → Bool
is_admin_item item = elim (item.role) [ user ↦ false | admin ↦ true ]

unfoldable pub shown_counts : List Item → Counts
shown_counts items = record {
  active = length (filter_by is_active items);
  suspended = length (filter_by is_suspended items);
  admin = length (filter_by is_admin_item items);
}

abbrev pub is_some {ℓ} : {A : Type ℓ} → Option A → Bool
is_some none = false
is_some (some a) = true

-- Paging is shown below a list that has rows, when nothing is loading and no error is shown.
abbrev pub shows_pages : Page → Bool
shows_pages s =
    not s.loading && (not (is_some s.error) && ltb 0 (length (listing_of s.data_).items))

pub data Event (A : Type 0) : Type 0 where
  opened submitted cleared refreshed went_back went_on : Event A
  edited : Filter → Event A
  status_chosen : Item → UserStatus → (confirmed : Bool) → Event A
  list_answered : Filter → Outcome Listing → Event A
  status_answered : Filter → Item → UserStatus → Outcome A → Event A
  reload_answered : Outcome Listing → Event A

module _ (A : Type 0) where
  -- A button that is disabled or not shown has no effect.
  unfoldable pub step : Page → Event A → Result
  unfolding load loaded submit reset_filters start_update after_update after_reload range_end
  step s opened = load first_page s
  step s submitted = if s.loading then (s, []) else submit s
  step s cleared = if s.loading then (s, []) else reset_filters s
  step s refreshed = if s.loading then (s, []) else load s.filters s
  step s went_back =
      let l = listing_of s.data_ in
      if not (shows_pages s) || l.offset == 0
      then (s, [])
      else load (record (s.filters) { offset = some (l.offset - limit) }) s
  step s went_on =
      let l = listing_of s.data_ in
      if not (shows_pages s) || leb l.total (range_end l)
      then (s, [])
      else load (record (s.filters) { offset = some (l.offset + limit) }) s
  step s (edited draft) = (record s { draft_filters = draft }, [])
  step s (status_chosen item status confirmed) = start_update item status confirmed s
  step s (list_answered filters answer) = (loaded filters answer s, [])
  step s (status_answered filters item status answer) = after_update filters item status answer s
  step s (reload_answered answer) = (after_reload answer s, [])

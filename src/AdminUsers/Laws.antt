-- ===== src/AdminUsers/Laws.antt =====
-- The list of users: its counts, and two orders of events in which the rows or the form are not
-- those of the filters.
use slai.Base.{
  ◌+◌, ◌≡◌, refl, true, false, List, [], ◌∷◌, some, length, arith, tally, length-filter_by,
}
use slai.Api.Errors.{resolved}
use slai.Api.User.{UserStatus, active, suspended}
use slai.AdminUsers.{
  Item, Listing, Page, list_users, reload_users, limit, submitted, status_chosen, list_answered,
  status_answered, reload_answered, step, load, loaded, submit, start_update, after_update,
  after_reload, shown_counts, is_active, is_suspended,
}

module _ (A : Type 0) (s : Page) (item : Item) (status : UserStatus) (a : A)
    (new old : Listing) where
  -- On a page that is not loading a change of a user's status is confirmed and answered, and the
  -- list of the filters at its click is asked for; other filters are submitted and answered before
  -- that list is. In the end the page shows the users of the first filters, and the others in its
  -- form and for its next lists.
  pub late_reload-filters :
      s.loading ≡ false
      → let f = record (s.draft_filters) { limit = some limit; offset = some 0 } in
        let chosen = step A s (status_chosen item status true) in
        let changed = step A chosen.0 (status_answered s.filters item status (resolved a)) in
        let applied = step A changed.0 submitted in
        let listed = step A applied.0 (list_answered f (resolved new)) in
        let final = (step A listed.0 (reload_answered (resolved old))).0 in
        (changed.1 ≡ reload_users s.filters ∷ [])
        × (applied.1 ≡ list_users f ∷ [])
        × (final.data_ ≡ some old)
        × (final.filters ≡ f)
        × (final.draft_filters ≡ f)
  unfolding step load loaded submit start_update after_update after_reload
  late_reload-filters idle = rw idle (refl, refl, refl, refl, refl)

-- Active and suspended users are the users shown.
shown_counts-length :
    (items : List Item)
    → (shown_counts items).active + (shown_counts items).suspended ≡ length items
unfolding shown_counts
shown_counts-length [] = refl
shown_counts-length (item ∷ items) = omega (
  arith,
  length-filter_by is_active item items,
  length-filter_by is_suspended item items,
  one item.status,
  shown_counts-length items,
)
  where
    one :
        (t : UserStatus)
        → tally (elim t [ active ↦ true | suspended ↦ false ])
            + tally (elim t [ active ↦ false | suspended ↦ true ])
          ≡ 1
    one active = refl
    one suspended = refl

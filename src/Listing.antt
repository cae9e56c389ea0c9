-- ===== src/Listing.antt =====
-- A page that lists rows of the API, in the abstract: its actions ask for lists, an answer to a
-- list comes at any time after it was asked for, and the page shows the rows of one query. The
-- admin's usage and audit pages (apps/web/src/app/admin/usage/page.tsx, admin/audit/page.tsx) are
-- two.
pub mod Laws
use slai.Base.{◌≡◌, List, [], ◌∷◌, ◌++◌, All, Mem, ◌⊎◌}
use slai.Api.Errors.{Outcome, resolved, rejected, Failure}

-- The operations of such a page, and what they keep.
pub record ListPage : Type 1 where
  pub State : Type 0
  pub Action : Type 0
  pub Query : Type 0
  pub Rows : Type 0
  pub step : State → Action → State × List Query
  pub arrive : Query → Outcome Rows → State → State
  pub shown : State → Query × Rows
  pub IsProper : Query → Type 0
  pub step_shown : (s : State) (a : Action) → shown (step s a).0 ≡ shown s
  pub step_proper : (s : State) (a : Action) → All IsProper (step s a).1
  pub arrive_resolved :
      (q : Query) (r : Rows) (s : State) → shown (arrive q (resolved r) s) ≡ (q, r)
  pub arrive_rejected :
      (q : Query) (e : Failure) (s : State) → shown (arrive q (rejected e) s) ≡ shown s

module _ (p : ListPage) where
  open p use {State, Action, Query, Rows, step, arrive}

  -- The page, the queries that were asked, and the answers that came.
  pub record World : Type 0 where
    pub state : State
    pub asked : List Query
    pub answers : List (Query × Rows)

  abbrev note_answer : Query → Outcome Rows → List (Query × Rows) → List (Query × Rows)
  note_answer q (resolved r) answers = (q, r) ∷ answers
  note_answer q (rejected e) answers = answers

  unfoldable pub act : World → Action → World
  act w a =
      let (s, queries) = step w.state a in
      record { state = s; asked = queries ++ w.asked; answers = w.answers }

  unfoldable pub answer : World → Query → Outcome Rows → World
  answer w q o = record {
    state = arrive q o w.state;
    asked = w.asked;
    answers = note_answer q o w.answers;
  }

  -- What can happen to a page that starts in s: actions, and answers to queries that were asked.
  pub data Reach (s : State) : World → Type 0 where
    opened : Reach s (record { state = s; asked = []; answers = [] })
    acted : {w : World} → Reach s w → (a : Action) → Reach s (act w a)
    answered :
        {w : World}
        → Reach s w
        → (q : Query) (o : Outcome Rows) → Mem q w.asked
        → Reach s (answer w q o)

-- ===== src/Listing/Laws.antt =====
-- The rows on the screen belong to the query on the screen.
use slai.Base.{
  ◌≡◌, ◌∙◌, sym, List, ◌∷◌, All, All-append, All-Mem, Mem, here, ◌⊎◌, inl, inr, subst, refl,
}
use slai.Api.Errors.{Outcome, resolved, rejected}
use slai.Listing.{ListPage, World, act, answer, Reach, opened, acted, answered}

module _ (p : ListPage) where
  open p use {State, Action, Query, Rows, IsProper, shown}

  abbrev pub IsProperAnswer : Query × Rows → Type 0
  IsProperAnswer a = IsProper a.0

  -- Every query is proper, and what is shown is what was shown at first or one of the answers.
  pub record Consistent (s : State) (w : World p) : Type 0 where
    pub asked : All IsProper w.asked
    pub answers : All IsProperAnswer w.answers
    pub shows : (shown w.state ≡ shown s) ⊎ Mem (shown w.state) w.answers

  abbrev keep_shows :
      {a b c : Query × Rows} {xs : List (Query × Rows)}
      → a ≡ b
      → (b ≡ c) ⊎ Mem b xs
      → (a ≡ c) ⊎ Mem a xs
  keep_shows e (inl h) = inl (e ∙ h)
  keep_shows {xs = xs} e (inr h) = inr (subst (λ x. Mem x xs) (sym e) h)

  act-Consistent :
      (s : State) (w : World p) (a : p.Action) → Consistent s w → Consistent s (act p w a)
  unfolding act
  act-Consistent s w a h = record {
    asked = All-append IsProper (p.step w.state a).1 w.asked (p.step_proper w.state a) h.asked;
    answers = h.answers;
    shows = keep_shows (p.step_shown w.state a) h.shows;
  }

  answer-Consistent :
      (s : State) (w : World p) (q : Query) (o : Outcome Rows)
      → Mem q w.asked
      → Consistent s w
      → Consistent s (answer p w q o)
  unfolding answer
  answer-Consistent s w q (resolved r) m h = record {
    asked = h.asked;
    answers = (All-Mem IsProper w.asked q h.asked m, h.answers);
    shows =
        inr (subst (λ x. Mem x ((q, r) ∷ w.answers)) (sym (p.arrive_resolved q r w.state)) here);
  }
  answer-Consistent s w q (rejected e) m h = record {
    asked = h.asked;
    answers = h.answers;
    shows = keep_shows (p.arrive_rejected q e w.state) h.shows;
  }

  -- Whatever a page is made to do and in whatever order the answers come, its queries are proper,
  -- and the query that it shows with its rows are together one answer that came, or what the page
  -- showed at first.
  pub Reach-Consistent : (s : State) (w : World p) → Reach p s w → Consistent s w
  Reach-Consistent s w opened = record { asked = tt; answers = tt; shows = inl refl }
  Reach-Consistent s w (acted {w = v} h a) = act-Consistent s v a (Reach-Consistent s v h)
  Reach-Consistent s w (answered {w = v} h q o m) =
      answer-Consistent s v q o m (Reach-Consistent s v h)

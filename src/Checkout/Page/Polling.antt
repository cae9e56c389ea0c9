-- ===== src/Checkout/Page/Polling.antt =====
-- The quiet refreshes that a waiting checkout repeats.
use slai.Base.{
  ◌≡◌, true, false, not, List, [], ◌∷◌, Option, String, str_eq, Mem, here, there, if_split, arith,
  Bool-cases, inl, inr,
}
use slai.Api.Errors.{Outcome, resolved, rejected}
use slai.Checkout.Status.{Payment}
use slai.Checkout.Page.{Checkout, is_not_paid, watch_status, after_refresh}

-- The page after quiet refreshes with these answers.
unfoldable pub poll : Checkout → List (Outcome Payment) → Checkout
unfolding after_refresh
poll s [] = s
poll s (answer ∷ answers) = poll (after_refresh true s answer) answers

refresh-shown :
    (s : Checkout) (o : Outcome Payment)
    → s.show_payment_success ≡ true
    → (after_refresh true s o).show_payment_success ≡ true
unfolding after_refresh watch_status
refresh-shown s (resolved p) h = ground (arith, h)
refresh-shown s (rejected e) h = h

poll-shown :
    (s : Checkout) (os : List (Outcome Payment))
    → s.show_payment_success ≡ true
    → (poll s os).show_payment_success ≡ true
unfolding poll
poll-shown s [] h = h
poll-shown s (o ∷ os) h = poll-shown (after_refresh true s o) os (refresh-shown s o h)

-- The last status that was seen, unless it is paid.
abbrev IsWaiting : Checkout → Type 0
IsWaiting s = is_not_paid s.previous_payment_status ≡ true

refresh-paid :
    (s : Checkout) (p : Payment)
    → IsWaiting s
    → str_eq p.status "paid" ≡ true
    → (after_refresh true s (resolved p)).show_payment_success ≡ true
unfolding after_refresh watch_status
refresh-paid s p w h = ground (arith, w, h)

refresh-waits :
    (s : Checkout) (p : Payment)
    → IsWaiting s
    → str_eq p.status "paid" ≡ false
    → IsWaiting (after_refresh true s (resolved p))
unfolding after_refresh watch_status
refresh-waits s p w h =
    if_split (λ (o : Option String). is_not_paid o ≡ true) (not (str_eq p.status ""))
      (λ e. ground (arith, h)) (λ e. w)

-- When the last status that the page saw is another one than paid, and a paid payment is among the
-- answers to its quiet refreshes, the success dialog is open after them, whatever the other answers
-- are and in whatever place the paid one comes.
pub poll-shows :
    (s : Checkout) (os : List (Outcome Payment)) (p : Payment)
    → is_not_paid s.previous_payment_status ≡ true
    → str_eq p.status "paid" ≡ true
    → Mem (resolved p) os
    → (poll s os).show_payment_success ≡ true
unfolding poll
poll-shows s [] p w h m = elim m [ ]
poll-shows s (o ∷ os) p w h here = poll-shown (after_refresh true s o) os (refresh-paid s p w h)
poll-shows s (resolved q ∷ os) p w h (there m) = elim (Bool-cases (str_eq q.status "paid")) [
  | inl e ↦ poll-shown (after_refresh true s (resolved q)) os (refresh-paid s q w e)
  | inr e ↦ poll-shows (after_refresh true s (resolved q)) os p (refresh-waits s q w e) h m
]
poll-shows s (rejected x ∷ os) p w h (there m) = poll-shows s os p w h m

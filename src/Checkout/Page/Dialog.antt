-- ===== src/Checkout/Page/Dialog.antt =====
-- The effect of `CheckoutPage` on `showPaymentSuccess`: the document does not scroll while the
-- success dialog is open, and Escape closes it. The effect's clean-up runs before its next run and
-- when the page is left.
use slai.Base.{
  ◌≡◌, Bool, true, false, not, ◌&&◌, List, [], ◌∷◌, Option, none, some, String, str_eq,
  if◌then◌else◌, arith, if_split,
}
use slai.Checkout.Page.{Checkout, Event, closed_success, step}

-- `original` is what the clean-up keeps, while there is a clean-up to run; the key listener is
-- there exactly as long.
pub record Locked : Type 0 where
  pub page : Checkout
  pub overflow : String
  pub original : Option String
  pub mounted : Bool

-- The clean-up of the effect's last run.
unfoldable pub clean_up : Locked → Locked
clean_up l = elim l.original [
  | none ↦ l
  | some overflow ↦ record l { overflow = overflow; original = none }
]

-- The effect's body.
unfoldable pub run_effect : Locked → Locked
run_effect l =
    if not l.page.show_payment_success
    then l
    else record l { overflow = "hidden"; original = some l.overflow }

abbrev same : Bool → Bool → Bool
same true b = b
same false b = not b

-- A new state of the page, with the effect where its dependency has changed.
unfoldable pub set_page : Checkout → Locked → Locked
unfolding clean_up run_effect
set_page page l =
    if same page.show_payment_success l.page.show_payment_success
    then record l { page = page }
    else run_effect (record (clean_up l) { page = page })

pub data Happening : Type 0 where
  page_event : (event : Event) → Happening
  key_pressed : (key : String) → Happening
  left : Happening

abbrev is_listening : Option String → Bool
is_listening none = false
is_listening (some _) = true

-- `handleKeyDown`, where it listens.
unfoldable pub handle_key_down : (key : String) → Locked → Locked
unfolding set_page
handle_key_down key l =
    if is_listening l.original && str_eq key "Escape"
    then set_page (step l.page closed_success).0 l
    else l

unfoldable pub happen : Happening → Locked → Locked
unfolding set_page handle_key_down clean_up
happen (page_event event) l = if l.mounted then set_page (step l.page event).0 l else l
happen (key_pressed key) l = if l.mounted then handle_key_down key l else l
happen left l = if l.mounted then record (clean_up l) { mounted = false } else l

unfoldable pub happen_all : List Happening → Locked → Locked
unfolding happen
happen_all [] l = l
happen_all (h ∷ hs) l = happen_all hs (happen h l)

abbrev pub is_open : Locked → Bool
is_open l = l.mounted && l.page.show_payment_success

-- The document of a page whose own overflow is `own`.
pub record Inv (own : String) (l : Locked) : Type 0 where
  pub shown : l.overflow ≡ (if is_open l then "hidden" else own)
  pub kept : l.original ≡ (if is_open l then some own else none)

set_page-Inv :
    (own : String) (page : Checkout) (l : Locked)
    → l.mounted ≡ true
    → Inv own l
    → Inv own (set_page page l)
unfolding set_page clean_up run_effect
set_page-Inv own page l m i = ground arith

handle_key_down-Inv :
    (own : String) (key : String) (l : Locked)
    → l.mounted ≡ true
    → Inv own l
    → Inv own (handle_key_down key l)
unfolding handle_key_down
handle_key_down-Inv own key l m i =
    if_split (Inv own) (is_listening l.original && str_eq key "Escape")
      (λ e. set_page-Inv own (step l.page closed_success).0 l m i) (λ e. i)

happen-Inv : (own : String) (h : Happening) (l : Locked) → Inv own l → Inv own (happen h l)
unfolding happen clean_up
happen-Inv own (page_event event) l i =
    if_split (Inv own) l.mounted (λ e. set_page-Inv own (step l.page event).0 l e i) (λ e. i)
happen-Inv own (key_pressed key) l i =
    if_split (Inv own) l.mounted (λ e. handle_key_down-Inv own key l e i) (λ e. i)
happen-Inv own left l i = if_split (Inv own) l.mounted (λ e. ground arith) (λ e. i)

abbrev pub opened : String → Checkout → Locked
opened own page = record { page = page; overflow = own; original = none; mounted = true }

happen_all-Inv :
    (own : String) (hs : List Happening) (l : Locked) → Inv own l → Inv own (happen_all hs l)
unfolding happen_all
happen_all-Inv own [] l i = i
happen_all-Inv own (h ∷ hs) l i = happen_all-Inv own hs (happen h l) (happen-Inv own h l i)

-- Whatever happens on a page that was opened without its success dialog, and after it was left, the
-- document scrolls as it did before, except that it does not scroll while the page is there with
-- its dialog open.
pub happen_all-overflow :
    (own : String) (page : Checkout) (hs : List Happening)
    → page.show_payment_success ≡ false
    → (happen_all hs (opened own page)).overflow
      ≡ (if is_open (happen_all hs (opened own page)) then "hidden" else own)
happen_all-overflow own page hs h = (happen_all-Inv own hs (opened own page) (ground arith)).shown

-- Escape closes the dialog.
pub escape-closes :
    (own : String) (l : Locked) → Inv own l → is_open (happen (key_pressed "Escape") l) ≡ false
unfolding happen handle_key_down set_page clean_up run_effect step
escape-closes own l i = ground arith

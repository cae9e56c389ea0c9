-- ===== src/Markup.antt =====
-- What a page shows, less its layout: the texts, fields, links and controls of its JSX in their
-- order, with the conditions under which they are there; an entry is a link of a navigation. A
-- button has the event of a click, and a field that of a change, if the source gives it one.
pub mod Laws
pub mod Parts
use slai.Base.{
  ℕ, Bool, true, false, not, ◌&&◌, ◌||◌, List, [], ◌∷◌, ◌++◌, Option, none, some, String, codes,
  str_eq, if◌then◌else◌, tally, ◌+◌,
}
use slai.Text.{Str}
use slai.Badge.{BadgeTone}

pub data Node (E : Type 0) : Type 0 where
  text : (content : Str) → Node E
  badge : (tone : BadgeTone) (content : Str) → Node E
  field : (label value : Str) → Node E
  input : (label value : Str) (disabled : Bool) (on_change : Option E) → Node E
  image : (alt src : Str) → Node E
  link : (href label : Str) → Node E
  entry : (href label : Str) (active : Bool) → Node E
  button : (label : Str) (disabled : Bool) (on_click : E) → Node E

abbrev pub Nodes : (E : Type 0) → Type 0
Nodes E = List (Node E)

module _ {E : Type 0} where
  -- A text that the source writes out.
  abbrev pub say : String → Node E
  say s = text (codes s)

  -- `test ? nodes : null`
  abbrev pub when : Bool → Nodes E → Nodes E
  when true nodes = nodes
  when false nodes = []

  -- `test ? nodes : others`
  abbrev pub either : Bool → Nodes E → Nodes E → Nodes E
  either true nodes others = nodes
  either false nodes others = others

  -- `value ? nodes(value) : null`, for an object or null.
  abbrev pub given {ℓ} : {A : Type ℓ} → Option A → (A → Nodes E) → Nodes E
  given none nodes = []
  given (some a) nodes = nodes a

  -- `list.map(nodes)`
  abbrev pub each {ℓ} : {A : Type ℓ} → (A → Nodes E) → List A → Nodes E
  each nodes [] = []
  each nodes (a ∷ as_) = nodes a ++ each nodes as_

  -- Whether a page has a node that passes a test.
  unfoldable pub has : (Node E → Bool) → Nodes E → Bool
  has p [] = false
  has p (node ∷ nodes) = p node || has p nodes

  -- A button or a field that can be used, with such an event.
  abbrev pub sends : (E → Bool) → Node E → Bool
  sends p (button label disabled on_click) = not disabled && p on_click
  sends p (text content) = false
  sends p (badge tone content) = false
  sends p (field label value) = false
  sends p (input label value disabled none) = false
  sends p (input label value disabled (some on_change)) = not disabled && p on_change
  sends p (image alt src) = false
  sends p (link href label) = false
  sends p (entry href label active) = false

  -- An entry that is marked as the page which is shown.
  abbrev pub marked : Node E → Bool
  marked (entry href label active) = active
  marked (link href label) = false
  marked (button label disabled on_click) = false
  marked (text content) = false
  marked (badge tone content) = false
  marked (field label value) = false
  marked (input label value disabled on_change) = false
  marked (image alt src) = false

  -- The nodes of a page that pass a test, counted.
  unfoldable pub count : (Node E → Bool) → Nodes E → ℕ
  count p [] = 0
  count p (node ∷ nodes) = tally (p node) + count p nodes

  -- A link to such a place.
  abbrev pub leads : (Str → Bool) → Node E → Bool
  leads p (link href label) = p href
  leads p (entry href label active) = p href
  leads p (button label disabled on_click) = false
  leads p (text content) = false
  leads p (badge tone content) = false
  leads p (field label value) = false
  leads p (input label value disabled on_change) = false
  leads p (image alt src) = false

-- `value ?? fallback`, as a text.
abbrev pub text_or : Option String → String → Str
text_or none fallback = codes fallback
text_or (some s) fallback = codes s

-- `value ? value : fallback`, as a text.
abbrev pub set_or : Option String → String → Str
set_or none fallback = codes fallback
set_or (some s) fallback = if str_eq s "" then codes fallback else codes s

-- The same of a text that is a list of code units.
abbrev pub str_or : Option Str → String → Str
str_or none fallback = codes fallback
str_or (some s) fallback = s

-- `value ? <field …/> : null`
abbrev pub field_if : {E : Type 0} → String → Option Str → Nodes E
field_if label none = []
field_if label (some []) = []
field_if label (some (c ∷ s)) = field (codes label) (c ∷ s) ∷ []

-- A text as a list of code units, if there is one.
abbrev pub codes_of : Option String → Option Str
codes_of none = none
codes_of (some s) = some (codes s)

-- `busy ? waiting : label`
abbrev pub label_if : Bool → String → String → Str
label_if true waiting label = codes waiting
label_if false waiting label = codes label

-- The formats of `Intl.NumberFormat` and `Intl.DateTimeFormat` that pages show values in.
pub record Formats : Type 0 where
  pub format_money : ℕ → String → Str
  pub format_credits : ℕ → Str
  pub format_compact_credits : ℕ → Str
  pub format_units : ℕ → Str
  pub format_compact_units : ℕ → Str
  pub format_date_time : Option String → Str

-- ===== src/Markup/Parts.antt =====
-- The shared components of apps/web/src/components: LoadingState, ErrorState, EmptyState,
-- MetricCard and the two fields of Input.
use slai.Base.{String, [], ◌∷◌, Option, some, codes, false}
use slai.Text.{Str}
use slai.Markup.{Nodes, text, say, field, input, button, given}

module _ {E : Type 0} where
  unfoldable pub loading_state : String → Nodes E
  loading_state label = say label ∷ []

  unfoldable pub error_state : String → Option E → Nodes E
  error_state message on_retry =
      say "Unable to load data"
      ∷ say message
      ∷ given on_retry (λ retry. button (codes "Retry") false retry ∷ [])

  unfoldable pub empty_state : (title message : String) → Nodes E
  empty_state title message = say title ∷ say message ∷ []

  unfoldable pub metric_card : (label value : Str) → (hint : Str) → Nodes E
  metric_card label value hint = field label value ∷ text hint ∷ []

  -- `hint ? <span>…</span> : null`
  unfoldable pub input_field :
      (label : String) (hint : Option String) (value : Str) (on_change : E) → Nodes E
  input_field label hint value on_change =
      input (codes label) value false (some on_change) ∷ given hint (λ h. say h ∷ [])

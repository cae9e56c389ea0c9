-- ===== src/AdminUsage/Laws.antt =====
-- The filters and the summary of the usage page.
use slai.Base.{
  ℕ, ◌+◌, ◌≡◌, refl, ◌∙◌, Bool, List, [], ◌∷◌, some, String, str_eq, length, filter_by, sum_of,
  fold-sum_of, arith,
}
use slai.Text.Trimmed.{trimmed_idem}
use slai.AdminUsage.{
  Event, Filter, normalize, limit, Summary, count_if, add_event, no_usage, reduce_usage,
  summarize_usage,
}

-- A filter that has been normalized is left as it is.
pub normalize_idem : (f : Filter) → normalize (normalize f) ≡ normalize f
unfolding normalize
normalize_idem f =
    rw
      (
        trimmed_idem f.user_id,
        trimmed_idem f.api_key_id,
        trimmed_idem f.model,
        trimmed_idem f.provider,
        trimmed_idem f.status,
        trimmed_idem f.from,
        trimmed_idem f.to,
      )
      refl

-- The query of a page of fifty, from the filters on the screen.
unfoldable pub page_query : ℕ → Filter → Filter
unfolding normalize
page_query offset f = normalize (record f { offset = some offset; limit = some limit })

pub page_query-page_query : (m n : ℕ) (f : Filter) → page_query m (page_query n f) ≡ page_query m f
unfolding page_query
page_query-page_query m n f =
    rw
      (
        trimmed_idem f.user_id,
        trimmed_idem f.api_key_id,
        trimmed_idem f.model,
        trimmed_idem f.provider,
        trimmed_idem f.status,
        trimmed_idem f.from,
        trimmed_idem f.to,
      )
      refl

abbrev pub status_is : String → Event → Bool
status_is name e = str_eq e.status name

length-count_if :
    (name : String) (es : List Event)
    → sum_of (λ e. count_if e.status name) es ≡ length (filter_by (status_is name) es)
length-count_if name [] = refl
length-count_if name (e ∷ es) = ground (arith, length-count_if name es)

module _ (measure : Summary → ℕ) (g : Event → ℕ)
    (adds : (s : Summary) (e : Event) → measure (add_event s e) ≡ measure s + g e) where
  reduce-sum_of :
      (es : List Event) (s : Summary) → measure (reduce_usage s es) ≡ measure s + sum_of g es
  unfolding reduce_usage
  reduce-sum_of = fold-sum_of add_event reduce_usage measure g reduce-nil reduce-cons adds
    where
      reduce-nil : (s : Summary) → reduce_usage s [] ≡ s
      reduce-nil s = refl

      reduce-cons :
          (s : Summary) (e : Event) (es : List Event)
          → reduce_usage s (e ∷ es) ≡ reduce_usage (add_event s e) es
      reduce-cons s e es = refl

module _ (es : List Event) where
  -- The one pass of `summarizeUsage` counts the events of each status and adds up the tokens and
  -- the costs of all events.
  pub summarize_usage-counts :
      ((summarize_usage es).billed ≡ length (filter_by (status_is "billed") es))
      × ((summarize_usage es).pending ≡ length (filter_by (status_is "pending") es))
      × ((summarize_usage es).failed ≡ length (filter_by (status_is "failed") es))
      × ((summarize_usage es).ignored ≡ length (filter_by (status_is "ignored") es))
      × ((summarize_usage es).input_tokens ≡ sum_of (λ e. e.input_tokens) es)
      × ((summarize_usage es).output_tokens ≡ sum_of (λ e. e.output_tokens) es)
      × ((summarize_usage es).total_tokens ≡ sum_of (λ e. e.total_tokens) es)
      × ((summarize_usage es).cost_units ≡ sum_of (λ e. e.cost_units) es)
  unfolding summarize_usage
  summarize_usage-counts = (
    counted "billed" (λ s. s.billed) (λ s e. unfold add_event in refl) refl,
    counted "pending" (λ s. s.pending) (λ s e. unfold add_event in refl) refl,
    counted "failed" (λ s. s.failed) (λ s e. unfold add_event in refl) refl,
    counted "ignored" (λ s. s.ignored) (λ s e. unfold add_event in refl) refl,
    summed (λ s. s.input_tokens) (λ e. e.input_tokens) (λ s e. unfold add_event in refl) refl,
    summed (λ s. s.output_tokens) (λ e. e.output_tokens) (λ s e. unfold add_event in refl) refl,
    summed (λ s. s.total_tokens) (λ e. e.total_tokens) (λ s e. unfold add_event in refl) refl,
    summed (λ s. s.cost_units) (λ e. e.cost_units) (λ s e. unfold add_event in refl) refl,
  )
    where
      summed :
          (measure : Summary → ℕ) (g : Event → ℕ)
          → ((s : Summary) (e : Event) → measure (add_event s e) ≡ measure s + g e)
          → measure no_usage ≡ 0
          → measure (reduce_usage no_usage es) ≡ sum_of g es
      summed measure g adds zero_ = omega (arith, reduce-sum_of measure g adds es no_usage, zero_)

      counted :
          (name : String) (measure : Summary → ℕ)
          → ((s : Summary) (e : Event)
              → measure (add_event s e) ≡ measure s + count_if e.status name)
          → measure no_usage ≡ 0
          → measure (reduce_usage no_usage es) ≡ length (filter_by (status_is name) es)
      counted name measure adds zero_ =
          summed measure (λ e. count_if e.status name) adds zero_ ∙ length-count_if name es

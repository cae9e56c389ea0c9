-- ===== src/Redact/Laws.antt =====
-- Nothing under a sensitive key is left, at any depth, and nothing else changes.
use slai.Base.{
  ◌≡◌, refl, sym, ap, Bool, true, false, ◌∷◌, some, if◌then◌else◌, arith, Bool-cases, inl, inr,
}
use mathlib.Core.Path.{ap₂}
use mathlib.Core.Option
use slai.Text.{Str, equals}
use slai.Text.Equality.{equals_iff}
use slai.Redact.{
  Json, null, boolean, number, string, array, object, Items, nil, cons, Fields, end, field,
  is_sensitive_key_usage, is_sensitive_key_audit, redacted, redact, redact_items, redact_fields,
  keys, get,
}

module _ (is_sensitive_key : Str → Bool) where
  -- Every field with a sensitive key, at any depth, holds "[redacted]".
  unfoldable mutual
    pub IsRedacted : Json → Type 0
    IsRedacted null = Unit
    IsRedacted (boolean b) = Unit
    IsRedacted (number n) = Unit
    IsRedacted (string s) = Unit
    IsRedacted (array items) = AllRedacted items
    IsRedacted (object fields) = FieldsRedacted fields

    pub AllRedacted : Items → Type 0
    AllRedacted nil = Unit
    AllRedacted (cons v items) = IsRedacted v × AllRedacted items

    pub FieldsRedacted : Fields → Type 0
    FieldsRedacted end = Unit
    FieldsRedacted (field key v fields) =
        (is_sensitive_key key ≡ true → v ≡ redacted) × IsRedacted v × FieldsRedacted fields

  redacted_or : (b : Bool) (v : Json) → b ≡ true → (if b then redacted else v) ≡ redacted
  redacted_or true v h = refl
  redacted_or false v h = cc

  IsRedacted-or : (b : Bool) (v : Json) → IsRedacted v → IsRedacted (if b then redacted else v)
  unfolding IsRedacted
  IsRedacted-or true v h = tt
  IsRedacted-or false v h = h

  mutual
    unfolding redact redact_items redact_fields IsRedacted AllRedacted FieldsRedacted

    redacts : (v : Json) → IsRedacted (redact is_sensitive_key v)
    redacts null = tt
    redacts (boolean b) = tt
    redacts (number n) = tt
    redacts (string s) = tt
    redacts (array items) = redacts_items items
    redacts (object fields) = redacts_fields fields

    redacts_items : (items : Items) → AllRedacted (redact_items is_sensitive_key items)
    redacts_items nil = tt
    redacts_items (cons v items) = (redacts v, redacts_items items)

    redacts_fields : (fields : Fields) → FieldsRedacted (redact_fields is_sensitive_key fields)
    redacts_fields end = tt
    redacts_fields (field key v fields) = (
      redacted_or (is_sensitive_key key) (redact is_sensitive_key v),
      IsRedacted-or (is_sensitive_key key) (redact is_sensitive_key v) (redacts v),
      redacts_fields fields,
    )

  -- In a redacted payload each field with a sensitive key, at any depth, holds "[redacted]".
  pub redact-IsRedacted : (v : Json) → IsRedacted (redact is_sensitive_key v)
  redact-IsRedacted v = redacts v

  kept_or :
      (b : Bool) (v w : Json) → (b ≡ true → v ≡ redacted) → w ≡ v → (if b then redacted else w) ≡ v
  kept_or true v w h e = sym (h refl)
  kept_or false v w h e = e

  mutual
    unfolding redact redact_items redact_fields IsRedacted AllRedacted FieldsRedacted

    keeps : (v : Json) → IsRedacted v → redact is_sensitive_key v ≡ v
    keeps null h = refl
    keeps (boolean b) h = refl
    keeps (number n) h = refl
    keeps (string s) h = refl
    keeps (array items) h = ap array (keeps_items items h)
    keeps (object fields) h = ap object (keeps_fields fields h)

    keeps_items : (items : Items) → AllRedacted items → redact_items is_sensitive_key items ≡ items
    keeps_items nil h = refl
    keeps_items (cons v items) (h, hs) = ap₂ cons (keeps v h) (keeps_items items hs)

    keeps_fields :
        (fields : Fields) → FieldsRedacted fields → redact_fields is_sensitive_key fields ≡ fields
    keeps_fields end h = refl
    keeps_fields (field key v fields) (p, h, hs) =
        ap₂ (field key) (kept_or (is_sensitive_key key) v (redact is_sensitive_key v) p (keeps v h))
          (keeps_fields fields hs)

  -- A payload in which each sensitive key holds "[redacted]" already is shown as it is.
  redact-eq_of_IsRedacted : (v : Json) → IsRedacted v → redact is_sensitive_key v ≡ v
  redact-eq_of_IsRedacted v h = keeps v h

  pub redact_idem :
      (v : Json) → redact is_sensitive_key (redact is_sensitive_key v) ≡ redact is_sensitive_key v
  redact_idem v = keeps (redact is_sensitive_key v) (redacts v)

  pub keys-redact_fields :
      (fields : Fields) → keys (redact_fields is_sensitive_key fields) ≡ keys fields
  unfolding keys redact_fields
  keys-redact_fields end = refl
  keys-redact_fields (field key v fields) = ap (λ x. key ∷ x) (keys-redact_fields fields)

  get-redact :
      (k : Str) (fields : Fields)
      → get k (redact_fields is_sensitive_key fields)
        ≡ Option.map
            (λ v. if is_sensitive_key k then redacted else redact is_sensitive_key v)
            (get k fields)
  unfolding get redact_fields
  get-redact k end = refl
  get-redact k (field key v fields) = elim (Bool-cases (equals key k)) [
    | inl e ↦ rw e (
        ap (λ x. some (if is_sensitive_key x then redacted else redact is_sensitive_key v))
          ((equals_iff key k).0 e))
    | inr e ↦ rw e (get-redact k fields)
  ]

  -- Looking a key up in the redacted object finds what the object has there, hidden if the key is
  -- sensitive and redacted inside if not, and nothing where the object has nothing; the keys are
  -- the same, in the same order.
  get-redact_fields :
      (k : Str) (fields : Fields)
      → (get k (redact_fields is_sensitive_key fields)
          ≡ Option.map
              (λ v. if is_sensitive_key k then redacted else redact is_sensitive_key v)
              (get k fields))
        × (keys (redact_fields is_sensitive_key fields) ≡ keys fields)
  get-redact_fields k fields = (get-redact k fields, keys-redact_fields fields)

module _ (s t : Str → Bool) (below : (k : Str) → s k ≡ true → t k ≡ true) where
  mutual
    unfolding IsRedacted AllRedacted FieldsRedacted

    mono : (v : Json) → IsRedacted t v → IsRedacted s v
    mono null h = tt
    mono (boolean b) h = tt
    mono (number n) h = tt
    mono (string x) h = tt
    mono (array items) h = mono_items items h
    mono (object fields) h = mono_fields fields h

    mono_items : (items : Items) → AllRedacted t items → AllRedacted s items
    mono_items nil h = tt
    mono_items (cons v items) (h, hs) = (mono v h, mono_items items hs)

    mono_fields : (fields : Fields) → FieldsRedacted t fields → FieldsRedacted s fields
    mono_fields end h = tt
    mono_fields (field key v fields) (p, h, hs) =
        (λ e. p (below key e), mono v h, mono_fields fields hs)

usage-le-audit : (k : Str) → is_sensitive_key_usage k ≡ true → is_sensitive_key_audit k ≡ true
unfolding is_sensitive_key_usage is_sensitive_key_audit
usage-le-audit k h = ground arith

-- A payload that the audit page has redacted holds "[redacted]" under each key that the usage page
-- calls sensitive, at any depth.
audit-IsRedacted_usage :
    (v : Json) → IsRedacted is_sensitive_key_usage (redact is_sensitive_key_audit v)
audit-IsRedacted_usage v =
    mono is_sensitive_key_usage is_sensitive_key_audit usage-le-audit
      (redact is_sensitive_key_audit v) (redact-IsRedacted is_sensitive_key_audit v)

-- ===== src/Redact/Alike.antt =====
-- Payloads that differ only in what their sensitive fields hold.
use slai.Base.{Bool, ◌≡◌, refl, ap, true, if◌then◌else◌}
use mathlib.Core.Path.{ap₂}
use slai.Text.{Str}
use slai.Redact.{
  Json, array, object, Items, nil, cons, Fields, end, field, redact, redact_items, redact_fields,
  redacted,
}

module _ (is_sensitive_key : Str → Bool) where
  mutual
    pub data Alike : Json → Json → Type 0 where
      same : {v : Json} → Alike v v
      arrays : {xs ys : Items} → AlikeItems xs ys → Alike (array xs) (array ys)
      objects : {fs gs : Fields} → AlikeFields fs gs → Alike (object fs) (object gs)

    pub data AlikeItems : Items → Items → Type 0 where
      no_items : AlikeItems nil nil
      item :
          {v w : Json} {xs ys : Items}
          → Alike v w
          → AlikeItems xs ys
          → AlikeItems (cons v xs) (cons w ys)

    -- A sensitive field may hold anything on either side.
    pub data AlikeFields : Fields → Fields → Type 0 where
      no_fields : AlikeFields end end
      secret :
          {key : Str} {v w : Json} {fs gs : Fields}
          → is_sensitive_key key ≡ true
          → AlikeFields fs gs
          → AlikeFields (field key v fs) (field key w gs)
      shared :
          {key : Str} {v w : Json} {fs gs : Fields}
          → Alike v w
          → AlikeFields fs gs
          → AlikeFields (field key v fs) (field key w gs)

  mutual
    unfolding redact

    pub redact-Alike :
        {v w : Json} → Alike v w → redact is_sensitive_key v ≡ redact is_sensitive_key w
    redact-Alike same = refl
    redact-Alike (arrays h) = ap array (items-Alike h)
    redact-Alike (objects h) = ap object (fields-Alike h)

    items-Alike :
        {xs ys : Items}
        → AlikeItems xs ys
        → redact_items is_sensitive_key xs ≡ redact_items is_sensitive_key ys
    items-Alike no_items = refl
    items-Alike (item h k) = ap₂ (λ v xs. cons v xs) (redact-Alike h) (items-Alike k)

    pub fields-Alike :
        {fs gs : Fields}
        → AlikeFields fs gs
        → redact_fields is_sensitive_key fs ≡ redact_fields is_sensitive_key gs
    fields-Alike no_fields = refl
    fields-Alike (secret {key} {v} {w} {fs} {gs} s k) =
        rw s (ap (λ r. field key redacted r) (fields-Alike k))
    fields-Alike (shared {key} {v} {w} {fs} {gs} h k) =
        ap₂ (λ x r. field key (if is_sensitive_key key then redacted else x) r) (redact-Alike h)
          (fields-Alike k)

-- ===== src/Redact.antt =====
-- `redactSensitivePayload` of apps/web/src/app/admin/usage/page.tsx and
-- apps/web/src/app/admin/audit/page.tsx, over JSON values. A number is kept as its text.
pub mod Laws
pub mod Alike
use slai.Base.{
  ℕ, ◌+◌, Bool, true, false, ◌&&◌, List, [], ◌∷◌, String, if◌then◌else◌, leb, any, codes, Option,
  none, some,
}
use slai.Text.{Str, includes, equals}

mutual
  pub data Json : Type 0 where
    null : Json
    boolean : Bool → Json
    number : Str → Json
    string : Str → Json
    array : Items → Json
    object : Fields → Json

  pub data Items : Type 0 where
    nil : Items
    cons : Json → Items → Items

  pub data Fields : Type 0 where
    end : Fields
    field : (key : Str) → Json → Fields → Fields

-- The `i` flag of a pattern of ASCII letters: without the `u` flag no other unit folds to one.
unfoldable pub fold_case : Str → Str
fold_case [] = []
fold_case (c ∷ s) = (if leb b'A' c && leb c b'Z' then c + 32 else c) ∷ fold_case s

-- `/(w1|w2|...)/i.test(key)`
unfoldable pub mentions : List Str → Str → Bool
unfolding fold_case includes
mentions words key = any (λ w. includes w (fold_case key)) words

abbrev pub usage_words : List Str
usage_words =
    codes "key" ∷ codes "token" ∷ codes "secret" ∷ codes "authorization" ∷ codes "password" ∷ []

abbrev pub audit_words : List Str
audit_words =
    codes "password"
    ∷ codes "token"
    ∷ codes "secret"
    ∷ codes "key"
    ∷ codes "authorization"
    ∷ codes "pepper"
    ∷ []

unfoldable pub is_sensitive_key_usage : Str → Bool
unfolding mentions
is_sensitive_key_usage key = mentions usage_words key

unfoldable pub is_sensitive_key_audit : Str → Bool
unfolding mentions
is_sensitive_key_audit key = mentions audit_words key

abbrev pub redacted : Json
redacted = string (codes "[redacted]")

module _ (is_sensitive_key : Str → Bool) where
  unfoldable mutual
    pub redact : Json → Json
    redact null = null
    redact (boolean b) = boolean b
    redact (number n) = number n
    redact (string s) = string s
    redact (array items) = array (redact_items items)
    redact (object fields) = object (redact_fields fields)

    pub redact_items : Items → Items
    redact_items nil = nil
    redact_items (cons v items) = cons (redact v) (redact_items items)

    pub redact_fields : Fields → Fields
    redact_fields end = end
    redact_fields (field key v fields) =
        let nested = redact v in
        field key (if is_sensitive_key key then redacted else nested) (redact_fields fields)

-- `Object.keys`
unfoldable pub keys : Fields → List Str
keys end = []
keys (field key v fields) = key ∷ keys fields

unfoldable pub get : Str → Fields → Option Json
unfolding equals
get k end = none
get k (field key v fields) = if equals key k then some v else get k fields

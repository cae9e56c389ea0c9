-- ===== src/Api/Fetch.antt =====
-- `apiFetch`, `apiUpload` and `parseResponse` of apps/web/src/lib/api.ts: the request that is made
-- and what an answer comes to. J is the type of JSON values; how a text is parsed and which text a
-- member of a value has are arguments.
pub mod Laws
use slai.Base.{
  ℕ, ◌==◌, Bool, true, false, List, [], ◌∷◌, ◌++◌, Option, none, some, if◌then◌else◌, codes,
}
use slai.Text.{Str, includes}
use slai.Text.Decimal.{to_digits}
use slai.Api.Endpoints.{build_url}
use slai.Proxy.{Headers, set}

-- What is given to `fetch`, with `credentials: "include"`.
pub record Request (B : Type 0) : Type 0 where
  pub url : Str
  pub method : Option Str
  pub headers : Headers
  pub body : Option B

abbrev pub with_type : Option Str → Headers → Headers
unfolding set
with_type none headers = headers
with_type (some body) headers = set (codes "content-type") (codes "application/json") headers

-- The body is the text that `JSON.stringify` gives for it.
unfoldable pub api_fetch_request : Str → Option Str → Headers → Option Str → Request Str
unfolding build_url
api_fetch_request path method headers body = record {
  url = build_url path;
  method = method;
  headers = with_type body headers;
  body = body;
}

abbrev or_post : Option Str → Option Str
or_post none = some (codes "POST")
or_post (some method) = some method

unfoldable pub api_upload_request : {F : Type 0} → Str → Option Str → Headers → F → Request F
unfolding build_url
api_upload_request path method headers form = record {
  url = build_url path;
  method = or_post method;
  headers = headers;
  body = some form;
}

-- An answer of `fetch` with its text.
pub record Response : Type 0 where
  pub ok : Bool
  pub status : ℕ
  pub content_type : Option Str
  pub text : Str

-- `null`, a value of the API, or the object of a plain text.
pub data Payload (J : Type 0) : Type 0 where
  null : Payload J
  json : J → Payload J
  message_only : Str → Payload J

abbrev text_payload : {J : Type 0} → Str → Payload J
text_payload [] = null
text_payload (c ∷ s) = message_only (c ∷ s)

abbrev parsed : {J : Type 0} → Option J → Option (Payload J)
parsed none = none
parsed (some j) = some (json j)

abbrev or_empty : Option Str → Str
or_empty none = []
or_empty (some s) = s

unfoldable pub underscores_to_spaces : Str → Str
underscores_to_spaces [] = []
underscores_to_spaces (c ∷ s) =
    let rest = underscores_to_spaces s in if c == b'_' then b' ' ∷ rest else c ∷ rest

-- What a call comes to: a payload, an `ApiError`, or the error of a text that is no JSON.
pub data Fetched (J : Type 0) : Type 0 where
  payload : Payload J → Fetched J
  api_failure : (message : Str) (status : ℕ) (code : Option Str) → Fetched J
  syntax_failure : Fetched J

module _ {J : Type 0} (parse_json : Str → Option J)
    (string_member : (key : Str) → J → Option Str) where
  unfoldable pub parse_response : Response → Option (Payload J)
  parse_response response =
      if includes (codes "application/json") (or_empty response.content_type)
      then parsed (parse_json response.text)
      else some (text_payload response.text)

  abbrev pub code_of : Payload J → Option Str
  code_of null = none
  code_of (json j) = string_member (codes "error") j
  code_of (message_only text) = none

  abbrev pub message_of : Payload J → Option Str
  message_of null = none
  message_of (json j) = string_member (codes "message") j
  message_of (message_only text) = some text

  unfoldable pub error_message : (message code : Option Str) → (status : ℕ) → Str
  unfolding underscores_to_spaces to_digits
  error_message (some message) code status = message
  error_message none (some (c ∷ code)) status = underscores_to_spaces (c ∷ code)
  error_message none (some []) status = codes "Request failed with " ++ to_digits status
  error_message none none status = codes "Request failed with " ++ to_digits status

  abbrev fetched_payload : Response → Option (Payload J) → Fetched J
  unfolding error_message
  fetched_payload response none = syntax_failure
  fetched_payload response (some p) =
      if response.ok
      then payload p
      else api_failure (error_message (message_of p) (code_of p) response.status) response.status
          (code_of p)

  unfoldable pub fetched : Response → Fetched J
  unfolding parse_response error_message
  fetched response = fetched_payload response (parse_response response)

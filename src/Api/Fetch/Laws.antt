-- ===== src/Api/Fetch/Laws.antt =====
-- The errors of a call of the API.
use slai.Base.{
  ℕ, ◌≡◌, ◌≢◌, refl, ap, sym, ◌∙◌, ◌==◌, true, false, [], ◌∷◌, Option, none, some, arith, if_split,
}
use slai.Text.{Str, truthy}
use slai.Api.Fetch.{
  Response, Payload, Fetched, api_failure, parse_response, underscores_to_spaces, fetched_payload,
  message_of, error_message, fetched,
}

underscores-truthy : (c : ℕ) (s : Str) → truthy (underscores_to_spaces (c ∷ s)) ≡ true
unfolding underscores_to_spaces
underscores-truthy c s = if_split (λ (r : Str). truthy r ≡ true) (c == b'_') (λ e. refl) (λ e. refl)

underscores-cons : (c : ℕ) (s : Str) → underscores_to_spaces (c ∷ s) ≢ []
underscores-cons c s h = ground (arith, underscores-truthy c s, ap truthy h)

abbrev message_in : {J : Type 0} → Fetched J → Str
message_in (api_failure message status code) = message
message_in _ = []

abbrev status_in : {J : Type 0} → Fetched J → ℕ
status_in (api_failure message status code) = status
status_in _ = 0

module _ {J : Type 0} (parse_json : Str → Option J)
    (string_member : (key : Str) → J → Option Str) where
  error_message-empty :
      (message code : Option Str) (status : ℕ)
      → error_message parse_json string_member message code status ≡ []
      → message ≡ some []
  unfolding error_message
  error_message-empty (some m) code status h = ap some h
  error_message-empty none (some (c ∷ code)) status h = elim (underscores-cons c code h) [ ]
  error_message-empty none (some []) status h = ground (arith, ap truthy h)
  error_message-empty none none status h = ground (arith, ap truthy h)

  -- A call throws an `ApiError` only for an answer that is not ok, and with its status; the
  -- message is empty only if the answer itself has the empty message.
  pub fetched-api_failure :
      (response : Response) (message : Str) (status : ℕ) (code : Option Str)
      → fetched parse_json string_member response ≡ api_failure message status code
      → (response.ok ≡ false)
        × (status ≡ response.status)
        × (message ≡ []
            → (p : Payload J) × (parse_response parse_json string_member response ≡ some p)
              × (message_of parse_json string_member p ≡ some []))
  unfolding fetched
  fetched-api_failure response message status code h =
      go (parse_response parse_json string_member response) h
    where
      Thrown : Option (Payload J) → Type 0
      Thrown o =
          (response.ok ≡ false)
          × (status ≡ response.status)
          × (message ≡ []
              → (p : Payload J) × (o ≡ some p) × (message_of parse_json string_member p ≡ some []))

      go :
          (o : Option (Payload J))
          → fetched_payload parse_json string_member response o ≡ api_failure message status code
          → Thrown o
      go none = λ q. ground (arith, q)
      go (some p) =
          if_split (λ (r : Fetched J). r ≡ api_failure message status code → Thrown (some p))
            response.ok (λ e q. ground (arith, q))
            (λ e q. (
              e,
              sym (ap status_in q),
              λ blank. (p, refl, error_message-empty _ _ response.status (ap message_in q ∙ blank)),
            ))

-- ===== src/Api/Errors.antt =====
-- Errors of the API client (`ApiError`, `readableError`, `isNotFound` of apps/web/src/lib/api.ts)
-- and what an awaited call comes to.
use slai.Base.{ℕ, ◌==◌, Bool, false, Option, String}

-- A value that is thrown: an `ApiError`, another `Error`, or anything else.
pub data Failure : Type 0 where
  api_error : (message : String) (status : ℕ) (code : Option String) → Failure
  error : (message : String) → Failure
  other : Failure

unfoldable pub is_not_found : Failure → Bool
is_not_found (api_error message status code) = status == 404
is_not_found (error message) = false
is_not_found other = false

-- `err?.status === 401`
unfoldable pub is_unauthorized : Failure → Bool
is_unauthorized (api_error message status code) = status == 401
is_unauthorized (error message) = false
is_unauthorized other = false

unfoldable pub readable_error : Failure → String
readable_error (api_error message status code) = message
readable_error (error message) = message
readable_error other = "Something went wrong."

-- A promise that has settled.
pub data Outcome {ℓ} (A : Type ℓ) : Type ℓ where
  resolved : A → Outcome A
  rejected : Failure → Outcome A

-- ===== src/Api/Endpoints/Laws.antt =====
-- Where requests go.
use slai.Base.{◌≡◌, refl, List, ◌++◌, codes, drop, arith}
use slai.Text.{Str, starts_with}
use slai.Api.Endpoints.{build_url, Endpoint, get, no_body, method, body, path}

path-version :
    {J : Type 0} (form : List (Str × Str) → Str) (e : Endpoint J)
    → path form e ≡ codes "/v1/" ++ drop 4 (path form e)
unfolding path
path-version form e = ground arith

-- The URL of each endpoint is /api/slai/v1/ with what its path has after /v1/, whatever the
-- identifiers and the query are.
build_url-path :
    {J : Type 0} (form : List (Str × Str) → Str) (e : Endpoint J)
    → build_url (path form e) ≡ codes "/api/slai/v1/" ++ drop 4 (path form e)
unfolding build_url starts_with
build_url-path form e = rw (path-version form e) refl

-- A request that reads sends no body.
pub get-no_body : {J : Type 0} (e : Endpoint J) → method e ≡ get → body e ≡ no_body
unfolding method body
get-no_body e h = ground arith

-- ===== src/Proxy.antt =====
-- The route that passes the console's requests on to the API,
-- apps/web/src/app/api/slai/[...path]/route.ts. `Headers` is a list of names, which it gives in
-- lower case, with their values; a request is an argument, and so is the answer of `fetch`.
pub mod Laws
use slai.Base.{
  ℕ, Bool, true, false, not, ◌&&◌, ◌||◌, List, [], ◌∷◌, ◌++◌, Option, none, some, if◌then◌else◌,
  codes,
}
use slai.Text.{Str, equals}

abbrev pub Headers : Type 0
Headers = List (Str × Str)

-- `headers.get(key)`
unfoldable pub get : Str → Headers → Option Str
get key [] = none
get key ((k, value) ∷ headers) =
    let rest = get key headers in if equals key k then some value else rest

-- `headers.set(key, value)`: one value for a name.
unfoldable pub set : Str → Str → Headers → Headers
set key value [] = (key, value) ∷ []
set key value ((k, v) ∷ headers) =
    let rest = set key value headers in
    if equals key k then (key, value) ∷ headers else (k, v) ∷ rest

-- `HOP_BY_HOP_HEADERS.has(key)`
unfoldable pub is_hop_by_hop : Str → Bool
is_hop_by_hop key =
    equals key (codes "connection")
    || equals key (codes "keep-alive")
    || equals key (codes "proxy-authenticate")
    || equals key (codes "proxy-authorization")
    || equals key (codes "te")
    || equals key (codes "trailer")
    || equals key (codes "transfer-encoding")
    || equals key (codes "upgrade")

-- The part of `NextRequest` that the route reads.
pub record Request : Type 0 where
  pub method : Str
  pub path : List Str
  pub search : Str
  pub headers : Headers
  pub body : Str

-- What `fetch` is called with; it follows no redirect.
pub record Init : Type 0 where
  pub target : Str
  pub method : Str
  pub headers : Headers
  pub body : Option Str

pub record Response : Type 0 where
  pub status : ℕ
  pub headers : Headers
  pub body : Str

-- `path.join("/")`
unfoldable pub join : List Str → Str
join [] = []
join (part ∷ []) = part
join (part ∷ next ∷ parts) = part ++ codes "/" ++ join (next ∷ parts)

-- `if (value) headers.set(key, value)`
abbrev pub set_if : Str → Option Str → Headers → Headers
unfolding set
set_if key none headers = headers
set_if key (some []) headers = headers
set_if key (some (c ∷ value)) headers = set key (c ∷ value) headers

unfoldable pub request_headers : Headers → Headers
unfolding get set
request_headers incoming =
    set_if (codes "cookie") (get (codes "cookie") incoming)
      (set_if (codes "content-type") (get (codes "content-type") incoming) [])

-- The path and the query of `target`, whose base is a constant.
unfoldable pub init_of : Request → Init
unfolding join request_headers
init_of request = record {
  target = codes "/" ++ join request.path ++ request.search;
  method = request.method;
  headers = request_headers request.headers;
  body =
      if not (equals request.method (codes "GET")) && not (equals request.method (codes "HEAD"))
      then some request.body
      else none;
}

unfoldable pub response_headers : (so_far : Headers) → Headers → Headers
unfolding set is_hop_by_hop
response_headers so_far [] = so_far
response_headers so_far ((key, value) ∷ headers) =
    response_headers (if not (is_hop_by_hop key) then set key value so_far else so_far) headers

unfoldable pub proxy : (fetch : Init → Response) → Request → Response
unfolding init_of response_headers
proxy fetch request =
    let response = fetch (init_of request) in
    record {
      status = response.status;
      headers = response_headers [] response.headers;
      body = response.body;
    }

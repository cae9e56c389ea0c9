-- ===== src/Tests/Pages.antt =====
-- The proxy route, the client's errors, and the pages of settings, a user and packages on examples.
use slai.Base.{
  ℕ, ◌≡◌, refl, true, false, ◌||◌, [], ◌∷◌, Option, none, some, codes, if◌then◌else◌, All,
}
use slai.Text.{Str, equals, includes, starts_with}
use slai.Api.Errors.{Outcome, resolved}
use slai.Api.Fetch as F
use slai.Api.Fetch.Laws as FL
use slai.Format.Ledger as L
use slai.Format.Ledger.Laws as LL
use slai.Proxy as X
use slai.Proxy.Laws as XL
use slai.UserDetail as U
use slai.UserDetail.Laws as UL

-- Two cookies are set at once.
abbrev upstream : X.Response
upstream = record {
  status = 200;
  headers =
      (codes "set-cookie", codes "a=1")
      ∷ (codes "connection", codes "close")
      ∷ (codes "set-cookie", codes "b=2")
      ∷ [];
  body = codes "{}";
}

abbrev fetch : X.Init → X.Response
fetch init = upstream

abbrev incoming : X.Request
incoming = record {
  method = codes "POST";
  path = codes "v1" ∷ codes "auth" ∷ codes "login" ∷ [];
  search = [];
  headers = (codes "cookie", codes "s=1") ∷ (codes "authorization", codes "x") ∷ [];
  body = codes "{}";
}

get-proxy_example : X.get (codes "set-cookie") (X.proxy fetch incoming).headers ≡ (
    if X.is_hop_by_hop (codes "set-cookie")
    then none
    else XL.last_value (codes "set-cookie") upstream.headers)
get-proxy_example = XL.get-proxy fetch incoming (codes "set-cookie")

get-init_of_example : X.get (codes "authorization") (X.init_of incoming).headers ≡ (
    if equals (codes "authorization") (codes "cookie")
      || equals (codes "authorization") (codes "content-type")
    then XL.not_empty (X.get (codes "authorization") incoming.headers)
    else none)
get-init_of_example = XL.get-init_of incoming (codes "authorization")

-- A text is its own JSON, and every value has the code "bad_request".
abbrev parse : Str → Option Str
parse s = some s

abbrev member : Str → Str → Option Str
member key j = if equals key (codes "error") then some (codes "bad_request") else none

abbrev bad_request : F.Response
bad_request = record {
  ok = false;
  status = 400;
  content_type = some (codes "application/json");
  text = codes "{}";
}

fetched-api_failure_example :
    (bad_request.ok ≡ false)
    × (bad_request.status ≡ bad_request.status)
    × (codes "bad request" ≡ []
        → (p : F.Payload Str) × (F.parse_response parse member bad_request ≡ some p)
          × (F.message_of parse member p ≡ some []))
unfolding F.fetched F.parse_response F.error_message F.underscores_to_spaces includes starts_with
    equals
fetched-api_failure_example =
    FL.fetched-api_failure parse member bad_request (codes "bad request") bad_request.status
      (some (codes "bad_request")) refl

abbrev done : Outcome ℕ
done = resolved 0

-- `Number` on the examples: five millionths, whatever is typed.
abbrev five : Str → U.Number
five s = U.plus 5

abbrev same : Str → Str
same s = s

abbrev user_page : U.Page ℕ
user_page = record {
  detail = none;
  loading = false;
  action_loading = false;
  error = none;
  notice = none;
  top_up_credits = codes "5";
  top_up_amount = codes "5";
  top_up_currency = codes "USD";
  top_up_package_id = [];
  top_up_provider_ref = codes " ";
  top_up_note = [];
  adjust_type = U.debit;
  adjust_units = codes "5";
  adjust_reason = codes "refund";
}

submit_adjustment-IsAllowed_example :
    All
      (UL.IsAllowed U.debit true)
      (U.submit_adjustment (codes "u1") five same (codes "1") true done done user_page).1
submit_adjustment-IsAllowed_example =
    UL.submit_adjustment-IsAllowed (codes "u1") five same (codes "1") true done done user_page

has_word-format_ledger_reason_example :
    L.has_word (codes "omniroute") (L.format_ledger_reason none (some (codes "via OmniRoute")) none)
    ≡ false
has_word-format_ledger_reason_example =
    LL.has_word-format_ledger_reason none (some (codes "via OmniRoute")) none

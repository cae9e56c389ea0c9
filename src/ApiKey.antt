-- ===== src/ApiKey.antt =====
-- The customer's API key: `APIKeyPage` of apps/web/src/app/dashboard/api-key/page.tsx. The raw key
-- is in the answer that makes it and nowhere else.
pub mod Laws
pub mod View
use slai.Base.{
  Bool, true, false, not, ◌||◌, List, [], ◌∷◌, ◌++◌, Option, none, some, String, if◌then◌else◌,
  codes, str_eq,
}
use slai.Text.{Str, trim, truthy}
use slai.Api.Errors.{Failure, Outcome, resolved, rejected, readable_error, is_not_found}

-- `APIKeyStatus`
pub data KeyStatus : Type 0 where
  active suspended revoked : KeyStatus

-- The fields of `PublicAPIKey` that the page reads.
pub record PublicKey : Type 0 where
  pub id : String
  pub name : String
  pub key_prefix : String
  pub status : KeyStatus
  pub created_at : String
  pub last_used_at : Option String
  pub revoked_at : Option String

-- `CreateAPIKeyResponse`
pub record Created : Type 0 where
  pub api_key : PublicKey
  pub raw_api_key : Str

pub data ConfirmAction : Type 0 where
  rotate revoke : ConfirmAction

pub record Page : Type 0 where
  pub api_key : Option PublicKey
  pub raw_key : Option Str
  pub name : Str
  pub loading : Bool
  pub action_loading : Bool
  pub error : Option String
  pub notice : Option String
  pub pending_confirm : Option ConfirmAction

pub data Call : Type 0 where
  create_key : (name : Str) → Call
  rotate_key revoke_key : Call

abbrev pub default_name : Str
default_name = codes "Default key"

unfoldable pub initial : Page
initial = record {
  api_key = none;
  raw_key = none;
  name = default_name;
  loading = true;
  action_loading = false;
  error = none;
  notice = none;
  pending_confirm = none;
}

unfoldable pub load : Page → Outcome PublicKey → Page
load s (resolved k) = record s { api_key = some k; error = none; loading = false }
load s (rejected e) =
    if is_not_found e
    then record s { api_key = none; error = none; loading = false }
    else record s { error = some (readable_error e); loading = false }

unfoldable pub after_create : Page → Outcome Created → Page
after_create s (resolved r) = record s {
  api_key = some r.api_key;
  raw_key = some r.raw_api_key;
  notice = some "API key created. Copy the raw key now; it will not be shown again.";
  error = none;
  pending_confirm = none;
  action_loading = false;
}
after_create s (rejected e) = record s {
  error = some (readable_error e);
  notice = none;
  pending_confirm = none;
  action_loading = false;
}

-- `name.trim() || "Default key"`
unfoldable pub key_name : Str → Str
key_name name = if truthy (trim name) then trim name else default_name

unfoldable pub create : Page → Outcome Created → Page × List Call
unfolding after_create key_name
create s answer = (after_create s answer, create_key (key_name s.name) ∷ [])

unfoldable pub after_rotate : Page → Outcome Created → Page
after_rotate s (resolved r) = record s {
  api_key = some r.api_key;
  raw_key = some r.raw_api_key;
  notice = some "API key rotated. Copy the new raw key now; it will not be shown again.";
  error = none;
  pending_confirm = none;
  action_loading = false;
}
after_rotate s (rejected e) = record s {
  error = some (readable_error e);
  notice = none;
  action_loading = false;
}

unfoldable pub after_revoke : Page → Outcome PublicKey → Page
after_revoke s (resolved k) = record s {
  api_key = some k;
  raw_key = none;
  notice =
      some
        "API key revoked. API access for this account is disabled until a new active key is created.";
  error = none;
  pending_confirm = none;
  action_loading = false;
}
after_revoke s (rejected e) = record s {
  error = some (readable_error e);
  notice = none;
  action_loading = false;
}

-- `confirmPendingAction`, with the answers to the two calls of which it makes one at most.
unfoldable pub confirm :
    Option ConfirmAction
    → Page
    → (rotation : Outcome Created) (revocation : Outcome PublicKey) → Page × List Call
unfolding after_rotate after_revoke
confirm none s rotation revocation = (s, [])
confirm (some rotate) s rotation revocation = (after_rotate s rotation, rotate_key ∷ [])
confirm (some revoke) s rotation revocation = (after_revoke s revocation, revoke_key ∷ [])

abbrev pub can_create_over : KeyStatus → Bool
can_create_over revoked = true
can_create_over _ = false

-- `!apiKey || apiKey.status === "REVOKED"`
unfoldable pub can_create : Option PublicKey → Bool
can_create none = true
can_create (some k) = can_create_over k.status

pub data Event : Type 0 where
  loaded : Outcome PublicKey → Event
  typed_name : (value : Str) → Event
  created : Outcome Created → Event
  asked : ConfirmAction → Event
  cancelled dismissed : Event
  confirmed : (rotation : Outcome Created) (revocation : Outcome PublicKey) → Event

-- The form to create a key is shown only where `can_create` holds.
unfoldable pub step : Page → Event → Page × List Call
unfolding load create confirm can_create
step s (loaded answer) = (load s answer, [])
step s (typed_name value) = (record s { name = value }, [])
step s (created answer) = if can_create s.api_key then create s answer else (s, [])
step s (asked action) = (record s { pending_confirm = some action }, [])
step s cancelled = (record s { pending_confirm = none }, [])
step s dismissed = (record s { raw_key = none }, [])
step s (confirmed rotation revocation) = confirm s.pending_confirm s rotation revocation

unfoldable pub run : Page → List Event → Page × List Call
run s [] = (s, [])
run s (e ∷ es) = let (t, calls) = step s e in let (u, later) = run t es in (u, calls ++ later)

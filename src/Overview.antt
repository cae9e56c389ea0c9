-- ===== src/Overview.antt =====
-- The overview pages: a customer's (apps/web/src/app/dashboard/page.tsx), which needs four answers,
-- and the admin's (apps/web/src/app/admin/page.tsx).
pub mod Laws
use slai.Base.{Bool, true, false, Option, none, some, String, if◌then◌else◌, str_eq}
use slai.Api.Errors.{Failure, Outcome, resolved, rejected, readable_error, is_not_found}
use slai.Badge.{BadgeTone, green, blue, yellow, red, status_tone}
use slai.ApiKey.{PublicKey, KeyStatus, active, suspended, revoked}

unfoldable pub usage_tone : String → BadgeTone
unfolding status_tone
usage_tone status =
    if str_eq status "billed"
    then green
    else if str_eq status "failed"
    then red
    else if str_eq status "ignored"
    then yellow
    else if str_eq status "pending"
    then blue
    else status_tone (some status)

abbrev status_name : KeyStatus → String
status_name active = "ACTIVE"
status_name suspended = "SUSPENDED"
status_name revoked = "REVOKED"

unfoldable pub api_key_label : Option PublicKey → String
api_key_label none = "None"
api_key_label (some key) = status_name key.status

-- B, U and L are the types of a balance, of usage events and of ledger entries.
pub record Data (B U L : Type 0) : Type 0 where
  pub balance : B
  pub usage : U
  pub ledger : L
  pub api_key : Option PublicKey

pub record Page (B U L : Type 0) : Type 0 where
  pub data_ : Option (Data B U L)
  pub loading : Bool
  pub error : Option String

-- A missing key is none; another error is thrown.
abbrev pub key_of : Outcome PublicKey → Outcome (Option PublicKey)
unfolding is_not_found
key_of (resolved key) = resolved (some key)
key_of (rejected e) = if is_not_found e then resolved none else rejected e

module _ {B U L : Type 0} where
  -- The first error in the order of the calls, or their values.
  abbrev pub join_answers :
      Outcome B → Outcome U → Outcome L → Outcome (Option PublicKey) → Outcome (Data B U L)
  join_answers (rejected e) usage ledger key = rejected e
  join_answers (resolved b) (rejected e) ledger key = rejected e
  join_answers (resolved b) (resolved u) (rejected e) key = rejected e
  join_answers (resolved b) (resolved u) (resolved l) (rejected e) = rejected e
  join_answers (resolved b) (resolved u) (resolved l) (resolved k) =
      resolved (record { balance = b; usage = u; ledger = l; api_key = k })

  abbrev pub settle : Outcome (Data B U L) → Page B U L → Page B U L
  settle (resolved data_) s = record s { data_ = some data_; loading = false; error = none }
  settle (rejected e) s = record s { error = some (readable_error e); loading = false }

  -- `load`, once its four calls have settled.
  unfoldable pub load :
      Outcome B → Outcome U → Outcome L → Outcome PublicKey → Page B U L → Page B U L
  unfolding key_of
  load balance usage ledger key s = settle (join_answers balance usage ledger (key_of key)) s

-- `AdminPage`
pub record AdminPage (D : Type 0) : Type 0 where
  pub dashboard : Option D
  pub loading : Bool
  pub refreshing : Bool
  pub error : Option String

module _ {D : Type 0} where
  unfoldable pub start_admin_load : (silent : Bool) → AdminPage D → AdminPage D
  start_admin_load true s = record s { refreshing = true; error = none }
  start_admin_load false s = record s { loading = true; error = none }

  unfoldable pub after_admin_load : Outcome D → AdminPage D → AdminPage D
  after_admin_load (resolved d) s = record s {
    dashboard = some d;
    loading = false;
    refreshing = false;
  }
  after_admin_load (rejected e) s = record s {
    error = some (readable_error e);
    loading = false;
    refreshing = false;
  }

-- ===== src/Tests/Console.antt =====
-- Sessions, keys, payments, synchronisation, endpoints and redaction on examples.
use slai.Base.{
  ℕ, ◌+◌, ◌≤◌, ◌≡◌, ltb, true, false, List, [], ◌∷◌, none, some, String, codes, All, length,
}
use slai.Api.Errors.{api_error, resolved, rejected}
use slai.Api.User.{User, admin, active, password}
use slai.Dates.{Calendar}
use slai.Session as S
use slai.Session.Laws.{IsSuitable, run-IsSuitable}
use slai.ApiKey as K
use slai.ApiKey.Laws as KL
use slai.AdminPayments as P
use slai.AdminPayments.Page as PP
use slai.AdminPayments.Page.Laws as PL
use slai.Sync as Y
use slai.Sync.Laws as YL
use slai.Redact as J
use slai.Redact.Laws as JL

abbrev administrator : User
administrator = record {
  id = "u1";
  email = "ada@example.com";
  role = admin;
  status = active;
  auth_provider = password;
  balance_policy = "prepaid";
  created_at = "2025-01-01";
  updated_at = "2025-01-01";
}

abbrev session_events : List (S.Event String)
session_events =
    S.mounted
    ∷ S.path_changed
    ∷ S.me_answered 1 (codes "/admin") (rejected (api_error "late" 401 none))
    ∷ S.me_answered 2 (codes "/admin/users") (resolved administrator)
    ∷ S.sync_answered 2 (resolved "ok")
    ∷ []

run-IsSuitable_example : IsSuitable (S.view (S.run (S.fresh String) session_events).0)
run-IsSuitable_example = run-IsSuitable session_events

abbrev revoked_key : K.PublicKey
revoked_key = record {
  id = "k1";
  name = "";
  key_prefix = "sk-1";
  status = K.revoked;
  created_at = "2026-01-01";
  last_used_at = none;
  revoked_at = some "2026-02-01";
}

abbrev key_page : K.Page
key_page = record {
  api_key = some revoked_key;
  raw_key = none;
  name = codes "  ";
  loading = false;
  action_loading = false;
  error = none;
  notice = none;
  pending_confirm = none;
}

abbrev made : K.Event
made = K.created (
    resolved (record {
      api_key = record revoked_key { status = K.active };
      raw_api_key = codes "sk-1-raw";
    }))

step-raw_key_example :
    (K.step key_page made).0.raw_key ≡ KL.set_or_keep (KL.new_raw_key key_page made) none
step-raw_key_example = KL.step-raw_key key_page made

step-IsJustified_example : All (KL.IsJustified key_page) (K.step key_page made).1
step-IsJustified_example = KL.step-IsJustified key_page made

-- Dates on the examples: a text is the time of its length.
abbrev calendar : Calendar
calendar = record {
  Time = ℕ;
  get_time = λ s. some (length s);
  later = λ a b. ltb b a;
  to_iso_string = λ t. [];
}

abbrev ranged : P.Filters
ranged = record P.default_filters { from = codes "1"; to = codes "12" }

abbrev item_with : String → String → P.Item
item_with id status = record {
  id = id;
  user_id = codes "u1";
  user_email = "ada@example.com";
  package_name = none;
  provider = "bakong_khqr";
  provider_ref = none;
  checkout_reference = none;
  provider_status = none;
  provider_transaction_id = none;
  amount_minor = 500;
  currency = "USD";
  credit_units = 5000000;
  status = status;
  created_at = "2026-01-01";
  paid_at = none;
  proof_uploaded = true;
  proof_file_sha256 = none;
  duplicate_proof_count = 0;
  reviewed_by_admin_email = none;
  reviewed_at = none;
  admin_payment_reference = none;
  rejection_reason = none;
  proof = none;
}

abbrev payments_events : List PP.Event
payments_events =
    PP.edited ranged
    ∷ PP.applied
    ∷ PP.approved (item_with "b" "pending_review") (codes "r") [] (resolved tt)
        (resolved (item_with "b" "paid"))
    ∷ []

run-lists_valid_example : All (PL.IsAllowed calendar) (PP.run calendar PP.initial payments_events).1
run-lists_valid_example = PL.run-lists_valid calendar payments_events PP.initial

abbrev status : Y.SyncStatus
status = record {
  worker_enabled = true;
  last_started_at = some (codes "2025-01-01T00:00:00Z");
  last_finished_at = none;
  last_success_at = none;
  last_error = none;
  last_result = none;
  currently_running = false;
}

duration-IsNear_example :
    YL.IsNormal (Y.duration 61500)
    × (61500 ≤ YL.value (Y.duration 61500) + 500)
    × (YL.value (Y.duration 61500) ≤ 61500 + 500)
duration-IsNear_example = YL.duration-IsNear 61500

abbrev nested : J.Fields
nested = J.field (codes "apiKey") (J.string (codes "sk-1")) (
    J.field (codes "usage")
      (J.array (J.cons (J.object (J.field (codes "Token") J.null J.end)) J.nil)) J.end)

redact-IsRedacted_example :
    JL.IsRedacted J.is_sensitive_key_usage (J.redact J.is_sensitive_key_usage (J.object nested))
redact-IsRedacted_example = JL.redact-IsRedacted J.is_sensitive_key_usage (J.object nested)

-- ===== src/Tests/Views.antt =====
-- What the pages show, on examples.
use slai.Base.{
  ℕ, ◌≤◌, ◌≡◌, refl, Bool, true, false, not, ◌&&◌, ◌||◌, List, [], ◌∷◌, none, some, codes,
}
use slai.Text.{Str, trim, trim_start, trim_end, is_space, truthy, includes, starts_with}
use slai.Markup.{Formats, has, sends, marked, count}
use slai.Redact.{
  Json, number, string, Fields, field, end, is_sensitive_key_usage, fold_case, mentions,
}
use slai.Redact.Alike.{no_fields, secret, shared, same}
use slai.Theme as T
use slai.Theme.Laws as TL
use slai.Auth.Google as G
use slai.Auth.Google.Laws as GL
use slai.Auth.Google.Credentials as GC
use slai.Navigation as N
use slai.Navigation.Laws as NL
use slai.ApiKey as K
use slai.ApiKey.View as KV
use slai.ApiKey.View.Laws as KL
use slai.AdminPayments as P
use slai.AdminPayments.Drawer as D
use slai.AdminPayments.Drawer.Laws as DL
use slai.Packages.Form.{empty_form, validate_form}
use slai.Packages.Page as S
use slai.Packages.View.Panel as V
use slai.Packages.View.Laws as VL
use slai.AdminUsage as A
use slai.AdminUsage.View as AV
use slai.AdminUsage.View.Laws as AL

abbrev plain : Formats
plain = record {
  format_money = λ amount currency. codes currency;
  format_credits = λ n. n ∷ [];
  format_compact_credits = λ n. n ∷ [];
  format_units = λ n. n ∷ [];
  format_compact_units = λ n. n ∷ [];
  format_date_time = λ date. [];
}

abbrev browser : T.Browser
browser = record {
  stored = none;
  works = true;
  prefers_dark = true;
  dark_class = false;
  color_scheme = T.light;
}

clicks-mount_example :
    TL.Agrees (T.clicks (tt ∷ []) (T.mount browser)).0 (T.clicks (tt ∷ []) (T.mount browser)).1
    × ((T.mount (T.clicks (tt ∷ []) (T.mount browser)).1).0
        ≡ (T.clicks (tt ∷ []) (T.mount browser)).0)
clicks-mount_example = TL.clicks-mount (tt ∷ []) browser refl

abbrev client : Str
client = codes "client-1"

client_trimmed : truthy (trim client) ≡ true
unfolding trim trim_start trim_end is_space
client_trimmed = refl

settled_script-IsStuck_example :
    G.view (
      G.run
        (G.step
          (G.open_in G.settled false (codes "Sign in") true)
          (G.config_answered (some (some client)))).0
        (G.script_failure ∷ G.clicked ∷ []))
    ≡ G.google_place none
settled_script-IsStuck_example =
    GL.settled_script-IsStuck (codes "Sign in") client true (G.script_failure ∷ G.clicked ∷ [])
      client_trimmed

abbrev google_events : List G.Event
google_events = G.config_answered (some (some client)) ∷ G.script_load true ∷ []

given :
    GC.given_credential
      (G.step
        (G.run (G.open_in G.absent false (codes "Sign in") true) google_events)
        (G.credential_event (some (codes "jwt")))).1
    ≡ some (codes "jwt")
unfolding G.run G.step G.open_in G.after_config G.run_effect G.configured G.load_script
    G.script_loaded G.draw G.credential_answered trim trim_start trim_end is_space
given = refl

step-credential_example :
    GC.IsPassedOn
      (G.run (G.open_in G.absent false (codes "Sign in") true) google_events)
      (G.credential_event (some (codes "jwt")))
      (codes "jwt")
step-credential_example =
    GC.step-credential G.absent false (codes "Sign in") true google_events
      (G.credential_event (some (codes "jwt"))) (codes "jwt") given

nav_bar-OneMarked_example :
    (count marked (N.nav_bar (codes "/admin") (codes "/admin/users/u1") N.admin_items) ≤ 1)
    × (count marked (N.nav_bar (codes "/dashboard") (codes "/admin/users/u1") N.dashboard_items)
        ≤ 1)
nav_bar-OneMarked_example = NL.nav_bar-OneMarked (codes "/admin/users/u1")

abbrev busy_page : K.Page
busy_page = record {
  api_key = none;
  raw_key = none;
  name = codes "Key";
  loading = false;
  action_loading = true;
  error = none;
  notice = none;
  pending_confirm = none;
}

busy-NoChange_example : has (sends KL.changes_key) (KV.view plain busy_page) ≡ false
busy-NoChange_example = KL.busy-NoChange plain busy_page refl

abbrev is_approve : D.Click → Bool
is_approve D.approve = true
is_approve (D.typed label) = false
is_approve D.reject = false
is_approve D.close = false

abbrev reviewed : P.Item
reviewed = record {
  id = "p1";
  user_id = codes "u1";
  user_email = "ada@example.com";
  package_name = none;
  provider = "bakong_khqr";
  provider_ref = none;
  checkout_reference = none;
  provider_status = none;
  provider_transaction_id = none;
  amount_minor = 500;
  currency = "USD";
  credit_units = 5000000;
  status = "pending_review";
  created_at = "2026-01-01";
  paid_at = none;
  proof_uploaded = true;
  proof_file_sha256 = none;
  duplicate_proof_count = 0;
  reviewed_by_admin_email = none;
  reviewed_at = none;
  admin_payment_reference = none;
  rejection_reason = none;
  proof = none;
}

has-drawer_example :
    has (sends is_approve) (D.drawer plain (some reviewed) false none none D.no_fields)
    ≡ DL.should_offer is_approve reviewed false D.no_fields
has-drawer_example = DL.has-drawer is_approve plain reviewed false none none D.no_fields

abbrev is_save : V.Click → Bool
is_save (V.typed label) = false
is_save V.save = true
is_save V.close = false
is_save V.flip_active = false

abbrev money : ℕ → Str → Str
money n currency = currency

abbrev number_of : Str → V.FormNumber
number_of s = V.not_finite

abbrev credits_of : ℕ → Str
credits_of n = n ∷ []

abbrev upper : Str → Str
upper s = s

has-package_panel_example :
    has (sends is_save) (
      V.package_panel plain money number_of credits_of upper S.create none
        (validate_form empty_form).0
        false
        empty_form)
    ≡ (is_save V.close
        || VL.changes_form is_save
        || (not false && (validate_form empty_form).1 && is_save V.save))
has-package_panel_example =
    VL.has-package_panel is_save plain money number_of credits_of upper S.create none
      (validate_form empty_form).0 false empty_form

abbrev payload : Json → Fields
payload v = field (codes "api_token") v (field (codes "model") (string (codes "m")) end)

abbrev stringify : Json → Str
stringify v = []

token_secret : is_sensitive_key_usage (codes "api_token") ≡ true
unfolding is_sensitive_key_usage mentions fold_case includes starts_with
token_secret = refl

abbrev event : A.Event
event = record {
  id = "e1";
  user_id = codes "u1";
  api_key_id = codes "k1";
  external_source = "omniroute";
  external_event_id = "x1";
  omniroute_key_id = none;
  model = none;
  provider = none;
  input_tokens = 3;
  output_tokens = 4;
  total_tokens = 7;
  cost_units = 2;
  status = "billed";
  occurred_at = "2026-01-01";
  raw_json = none;
  created_at = "2026-01-01";
}

drawer-Alike_example :
    AV.drawer plain stringify (AL.with_payload (payload (string (codes "t1"))) event)
    ≡ AV.drawer plain stringify (AL.with_payload (payload (number (codes "2"))) event)
drawer-Alike_example =
    AL.drawer-Alike plain stringify event (secret token_secret (shared same no_fields))

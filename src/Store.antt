-- ===== src/Store.antt =====
-- Buying credits: the public list of packages (apps/web/src/app/packages/page.tsx) and the billing
-- page (apps/web/src/app/dashboard/billing/page.tsx). An answer is an event of its own.
pub mod Laws
use slai.Base.{
  ℕ, ◌+◌, Bool, true, false, ◌||◌, List, [], ◌∷◌, ◌++◌, Option, none, some, String, if◌then◌else◌,
  codes, str_eq, sum_of, filter_by,
}
use slai.Text.{Str}
use slai.Api.Errors.{Outcome, resolved, rejected, readable_error, is_unauthorized}
use slai.Api.User.{User}
use slai.Packages.{CreditPackage}
use slai.AdminUsage.{Tone, green, blue, neutral, yellow, red}

unfoldable pub payment_status_tone : String → Tone
payment_status_tone status =
    if str_eq status "paid"
    then green
    else if str_eq status "pending"
        || str_eq status "pending_payment"
        || str_eq status "pending_proof"
        || str_eq status "pending_review"
    then blue
    else if str_eq status "failed"
        || str_eq status "cancelled"
        || str_eq status "rejected"
        || str_eq status "needs_review"
    then red
    else if str_eq status "refunded" || str_eq status "expired"
    then yellow
    else neutral

unfoldable pub ledger_tone : String → Tone
ledger_tone type =
    if str_eq type "payment_credit" || str_eq type "bonus_credit"
    then green
    else if str_eq type "admin_adjustment_credit"
    then blue
    else if str_eq type "usage_debit"
    then red
    else if str_eq type "admin_adjustment_debit" || str_eq type "refund_debit"
    then yellow
    else neutral

unfoldable pub format_provider : String → String
format_provider provider =
    if str_eq provider "bakong_khqr"
    then "Bakong KHQR"
    else if str_eq provider "manual"
    then "Manual"
    else provider

-- Calls of the API, and of the router.
pub data Effect : Type 0 where
  list_public get_me : Effect
  checkout_package : (id : Str) → Effect
  push : (path : Str) → Effect

-- `PackagesPage`
pub record Shop : Type 0 where
  pub packages : List CreditPackage
  pub current_user : Option User
  pub loading_packages : Bool
  pub error : Option String
  pub checkout_error : Option String
  pub choosing_package_id : Option Str

abbrev pub is_active : CreditPackage → Bool
is_active pkg = pkg.active

unfoldable pub load : Shop → Shop × List Effect
load s = (record s { loading_packages = true; error = none }, list_public ∷ [])

unfoldable pub loaded : Outcome (List CreditPackage) → Shop → Shop
loaded (resolved packages) s = record s {
  packages = filter_by is_active packages;
  loading_packages = false;
}
loaded (rejected e) s = record s { error = some (readable_error e); loading_packages = false }

-- No session leaves the user as it is; another error takes the user away.
unfoldable pub after_me : Outcome User → Shop → Shop
unfolding is_unauthorized
after_me (resolved user) s = record s { current_user = some user }
after_me (rejected e) s = if is_unauthorized e then s else record s { current_user = none }

abbrev pub start_checkout : Option User → (id : Str) → Shop → Shop × List Effect
start_checkout none id s = (s, push (codes "/signup") ∷ [])
start_checkout (some user) id s =
    (record s { choosing_package_id = some id; checkout_error = none }, checkout_package id ∷ [])

unfoldable pub choose_package : (id : Str) → Shop → Shop × List Effect
choose_package id s = start_checkout s.current_user id s

-- The answer is the identifier of the new payment.
unfoldable pub after_checkout : Outcome Str → Shop → Shop × List Effect
after_checkout (resolved payment) s =
    (record s { choosing_package_id = none }, push (codes "/checkout/" ++ payment) ∷ [])
after_checkout (rejected e) s =
    (record s { checkout_error = some (readable_error e); choosing_package_id = none }, [])

pub record Totals : Type 0 where
  pub credits : ℕ
  pub bonus : ℕ

unfoldable pub package_totals : List CreditPackage → Totals
package_totals packages = record {
  credits = sum_of (λ pkg. pkg.credit_units + pkg.bonus_credit_units) packages;
  bonus = sum_of (λ pkg. pkg.bonus_credit_units) packages;
}

pub data Event : Type 0 where
  opened retried : Event
  chosen : (id : Str) → Event
  packages_answered : Outcome (List CreditPackage) → Event
  me_answered : Outcome User → Event
  checkout_answered : Outcome Str → Event

abbrev and_me : Shop × List Effect → Shop × List Effect
and_me r = (r.0, r.1 ++ get_me ∷ [])

unfoldable pub step : Shop → Event → Shop × List Effect
unfolding load loaded after_me choose_package after_checkout
step s opened = and_me (load s)
step s retried = load s
step s (chosen id) = choose_package id s
step s (packages_answered answer) = (loaded answer s, [])
step s (me_answered answer) = (after_me answer s, [])
step s (checkout_answered answer) = after_checkout answer s

unfoldable pub run : Shop → List Event → Shop × List Effect
unfolding step
run s [] = (s, [])
run s (event ∷ events) =
    let (t, effects) = step s event in let (u, more) = run t events in (u, effects ++ more)

-- `BillingPage`, with the balance, the ledger and the payments of three types.
pub record Bill (B L P : Type 0) : Type 0 where
  pub balance : B
  pub ledger : L
  pub packages : List CreditPackage
  pub payments : List P

pub record Billing (B L P : Type 0) : Type 0 where
  pub data_ : Option (Bill B L P)
  pub loading : Bool
  pub error : Option String

abbrev payments_or_none : {P : Type 0} → Outcome (List P) → List P
payments_or_none (resolved payments) = payments
payments_or_none (rejected e) = []

-- `load`, once its calls have settled: a failure to list the payments is passed over.
unfoldable pub load_billing :
    {B L P : Type 0}
    → Outcome (B × L × List CreditPackage)
    → Outcome (List P)
    → Billing B L P
    → Billing B L P
load_billing (resolved (balance, ledger, packages)) payments s = record s {
  data_ = some (record {
    balance = balance;
    ledger = ledger;
    packages = packages;
    payments = payments_or_none payments;
  });
  loading = false;
  error = none;
}
load_billing (rejected e) payments s = record s { error = some (readable_error e); loading = false }

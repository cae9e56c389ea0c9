-- ===== src/Navigation.antt =====
-- The navigation of the console: AppShell and AdminShell of apps/web/src/components, with what
-- their frames show around a page. Icons are drawings and left out.
pub mod Laws
use slai.Base.{
  Bool, true, false, ◌&&◌, List, [], ◌∷◌, ◌++◌, Option, none, some, String, codes, if◌then◌else◌,
  not, take,
}
use slai.Text.{Str, has_text, equals}
use slai.Api.User.{User, is_admin}
use slai.Session.{is_active_path}
use slai.Sync.{SyncStatus}
use slai.Shell.{Section, public, dashboard, admin}
use slai.Badge.{BadgeTone}
use slai.Markup.{
  Node, Nodes, text, say, badge, input, link, entry, button, when, given, each, label_if,
}

pub record NavItem : Type 0 where
  pub href : String
  pub label : String

abbrev nav : String → String → NavItem
nav href label = record { href = href; label = label }

abbrev pub dashboard_items : List NavItem
dashboard_items =
    nav "/dashboard" "Overview"
    ∷ nav "/dashboard/api-key" "API key"
    ∷ nav "/dashboard/docs" "Docs"
    ∷ nav "/dashboard/usage" "Usage"
    ∷ nav "/dashboard/billing" "Billing"
    ∷ nav "/dashboard/settings" "Settings"
    ∷ []

abbrev pub section_admin_items : List NavItem
section_admin_items =
    nav "/admin" "Overview"
    ∷ nav "/admin/users" "Users"
    ∷ nav "/admin/packages" "Packages"
    ∷ nav "/admin/usage" "Usage"
    ∷ nav "/admin/sync" "Sync"
    ∷ nav "/admin/audit" "Audit Logs"
    ∷ []

abbrev pub public_items : List NavItem
public_items =
    nav "/packages" "Packages"
    ∷ nav "/#how-it-works" "How it works"
    ∷ nav "/dashboard" "Dashboard"
    ∷ []

-- `navItems[section]`
abbrev pub section_items : Section → List NavItem
section_items dashboard = dashboard_items
section_items admin = section_admin_items
section_items public = public_items

-- The table of AdminShell.tsx.
abbrev pub admin_items : List NavItem
admin_items =
    nav "/admin" "Overview"
    ∷ nav "/admin/users" "Users"
    ∷ nav "/admin/packages" "Packages"
    ∷ nav "/admin/payments" "Payments"
    ∷ nav "/admin/settings/payments" "Payment Settings"
    ∷ nav "/admin/usage" "Usage"
    ∷ nav "/admin/sync" "Sync"
    ∷ nav "/admin/audit" "Audit Logs"
    ∷ []

pub data Click : Type 0 where
  log_out : Click

-- `DashboardNavItem` and `AdminNavItem`, with those of small screens.
unfoldable pub nav_item : (home pathname : Str) → NavItem → Nodes Click
unfolding is_active_path
nav_item home pathname item =
    entry (codes item.href) (codes item.label) (is_active_path home pathname (codes item.href)) ∷ []

unfoldable pub nav_bar : (home pathname : Str) → List NavItem → Nodes Click
unfolding nav_item
nav_bar home pathname items = each (nav_item home pathname) items

-- The tone and the text of `SyncDot`.
unfoldable pub sync_dot : Option SyncStatus → Node Click
sync_dot none = badge BadgeTone.neutral (codes "Sync off")
sync_dot (some status) =
    if has_text status.last_error
    then badge BadgeTone.red (codes "Sync issue")
    else if status.currently_running
    then badge BadgeTone.blue (codes "Sync running")
    else if status.worker_enabled
    then badge BadgeTone.green (codes "Sync OK")
    else badge BadgeTone.neutral (codes "Sync off")

-- `to_upper` is `toUpperCase` on the first code unit of an e-mail address.
module _ (to_upper : Str → Str) where
  unfoldable pub user_initial : Option User → Str
  user_initial none = codes "S"
  user_initial (some u) = to_upper (take 1 (codes u.email))

  abbrev sign_out : (logging_out : Bool) → Node Click
  sign_out logging_out = button (label_if logging_out "Signing out" "Sign out") logging_out log_out

  -- `AdminFrame`, around its children.
  unfoldable pub admin_frame :
      (pathname : Str) (logging_out : Bool) → User → Option SyncStatus → Nodes Click → Nodes Click
  admin_frame pathname logging_out u sync children =
      link (codes "/admin") (codes "SLAI")
        ∷ say "Prepaid AI admin"
        ∷ nav_bar (codes "/admin") pathname admin_items
      ++ text (user_initial (some u))
        ∷ say u.email
        ∷ say "Administrator"
        ∷ sign_out logging_out
        ∷ link (codes "/admin") (codes "SLAI ADMIN")
        ∷ input (codes "Search users, keys, requests...") [] false none
        ∷ link (codes "/") (codes "Docs")
        ∷ sync_dot sync
        ∷ text (user_initial (some u))
        ∷ nav_bar (codes "/admin") pathname admin_items
      ++ children

  -- The page for an account that is not an administrator's.
  unfoldable pub forbidden_state : (logging_out : Bool) → Nodes Click
  forbidden_state logging_out =
      say "Admin Console"
      ∷ say "Admin access required"
      ∷ say "Your current account does not have permission to access the SLAI admin console."
      ∷ link (codes "/dashboard") (codes "Go to Dashboard")
      ∷ button (label_if logging_out "Logging out" "Log out") logging_out log_out
      ∷ []

  abbrev pub account : (logging_out : Bool) → Option User → Nodes Click
  account logging_out none = say "Checking session" ∷ []
  account logging_out (some u) =
      text (user_initial (some u))
      ∷ say u.email
      ∷ say "Developer account"
      ∷ sign_out logging_out
      ∷ []

  abbrev pub initial : Option User → Nodes Click
  initial user = given user (λ u. text (user_initial (some u)) ∷ [])

  -- The entry for administrators of the two navigation bars.
  abbrev pub admin_entry : (pathname : Str) → Option User → Nodes Click
  admin_entry pathname user =
      when (is_admin user) (nav_item (codes "/dashboard") pathname (nav "/admin" "Admin"))

  -- `DashboardFrame`, around its children.
  unfoldable pub dashboard_frame :
      (pathname : Str) (logging_out : Bool) → Option User → Nodes Click → Nodes Click
  dashboard_frame pathname logging_out user children =
      link (codes "/dashboard") (codes "SLAI")
        ∷ say "Developer console"
        ∷ nav_bar (codes "/dashboard") pathname dashboard_items
      ++ admin_entry pathname user
      ++ account logging_out user
      ++ link (codes "/dashboard") (codes "SLAI") ∷ initial user
      ++ input (codes "Search usage, ledger, keys...") [] false none
        ∷ when (is_admin user) (link (codes "/admin") (codes "Admin") ∷ [])
      ++ initial user
      ++ nav_bar (codes "/dashboard") pathname dashboard_items
      ++ admin_entry pathname user
      ++ children

  -- The public header's entries are marked by their very path.
  abbrev section_item : (pathname : Str) → NavItem → Nodes Click
  section_item pathname item =
      entry (codes item.href) (codes item.label) (equals pathname (codes item.href)) ∷ []

  abbrev header_account : Option User → Nodes Click
  header_account none =
      link (codes "/login") (codes "Sign in") ∷ link (codes "/signup") (codes "Create account") ∷ []
  header_account (some u) =
      text (user_initial (some u)) ∷ say u.email ∷ button (codes "Logout") false log_out ∷ []

  abbrev footer_account : Option User → Nodes Click
  footer_account none =
      link (codes "/login") (codes "Sign in") ∷ link (codes "/signup") (codes "Create account") ∷ []
  footer_account (some u) =
      link (codes "/dashboard") (codes "Dashboard")
      ∷ link (codes "/dashboard/billing") (codes "Billing")
      ∷ []

  abbrev footer : Option User → Nodes Click
  footer user =
      say "SLAI"
      ∷ say "Prepaid AI API credits for developers."
      ∷ link (codes "/packages") (codes "Packages")
      ∷ link (codes "/terms") (codes "Terms")
      ∷ link (codes "/privacy") (codes "Privacy")
      ∷ footer_account user

  abbrev is_public : Section → Bool
  is_public public = true
  is_public dashboard = false
  is_public admin = false

  -- `AppShell` in the sections other than the dashboard's.
  unfoldable pub section_frame :
      (pathname : Str) → Section → Option User → Nodes Click → Nodes Click
  unfolding user_initial
  section_frame pathname section user children =
      link (codes "/") (codes "SLAI")
        ∷ say "Prepaid AI credits"
        ∷ each (section_item pathname) (section_items section)
      ++ header_account user
      ++ children
      ++ when (is_public section) (footer user)

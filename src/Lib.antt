-- ===== src/Lib.antt =====
-- The SLAI web console: a model of apps/web, the Next.js client of a prepaid AI gateway.
--
-- The console's pages keep their state in React hooks and call the API of the Go service through a
-- proxy of their own origin. Here the state of a page is a record, a handler is a function from the
-- state and the outcomes of its awaited calls to the state that it leaves and the calls that it
-- made, and a page over time is a run over a list of events. An outcome is resolved with a value or
-- rejected with a failure, and every theorem holds for all of them.
--
-- - Base, Text: shared helpers; JavaScript strings as lists of UTF-16 code units, trimming, regular
--   expressions by derivatives with their languages, decimal notation.
-- - Markup: what a page draws, as a list of texts, fields, images, links and buttons, each button
--   with its condition and the event it sends; Parts has components/LoadingState.tsx,
--   ErrorState.tsx and Input.tsx. The modules named View, Drawer and Panel are the markup of pages.
-- - Format: apps/web/src/lib/format.ts; Ledger has `formatLedgerReason` and `formatDelta`.
-- - Api: apps/web/src/lib/api.ts and lib/auth.ts: Errors (`ApiError`, `readableError`), User
--   (`User`, `isAdmin`), Endpoints (the table `api`, `buildUrl`, `toQuery`), Fetch (`apiFetch`,
--   `apiUpload`, `parseResponse`), Admin (types of the answers to administrators).
-- - Proxy: apps/web/src/app/api/slai/[...path]/route.ts, between the client and the API.
-- - Packages: apps/web/src/app/admin/packages/page.tsx: Amount and Money (`parseMoneyToMinor`,
--   `minorToMoney`, `isCreditAmountString`), Credits (`toStoredCredits`), Form (`validateForm`,
--   `formToInput`, `packageToForm`), Page (`submitPackage`, `toggleActive`), Shown
--   (`visiblePackages`, `summary`), View (the page, and in Panel its form).
-- - Auth: the checks of the sign-in forms, and the pages apps/web/src/app/signup, login,
--   admin/login and password-reset (Signup, Login, AdminLogin, Reset). Google: the sign-in button
--   of components/AuthPage.tsx, with the script that it loads.
-- - Session: apps/web/src/components/AdminShell.tsx. A session request has a number, and an answer
--   to any but the last is dropped, as the effect's `cancelled` flag does. Shell:
--   apps/web/src/components/DashboardShell.tsx. Navigation: what both shells draw,
--   AppShell.tsx there included. Badge, Copy, Theme: Badge.tsx, CopyButton.tsx, ThemeToggle.tsx.
-- - Checkout: apps/web/src/app/checkout/[paymentId]/page.tsx: Status (`statusCopy` and the other
--   helpers), Page (`refreshPayment`, `submitProof`, the effect on the status; Polling, its quiet
--   refreshes; Dialog, the scroll lock and the key handler of the dialog) and View.
-- - AdminPayments: apps/web/src/app/admin/payments/page.tsx. The list and the details are answered
--   by events of their own, in any order. Drawer has the fields of the review drawer.
-- - Listing: a page that asks for lists and shows their answers, as an interface of operations and
--   laws. AdminUsage (apps/web/src/app/admin/usage/page.tsx) and Audit (admin/audit/page.tsx) are
--   two implementations: the parent has the helpers, Page the state and the handlers, and Runs and
--   Laws what is proved of them.
-- - Usage: apps/web/src/app/dashboard/usage/page.tsx. Overview: dashboard/page.tsx and admin/page.tsx
--   there. Store: packages/page.tsx and dashboard/billing/page.tsx. Settings:
--   dashboard/settings/page.tsx.
-- - AdminUsers, UserDetail, PaymentSettings: apps/web/src/app/admin/users/page.tsx,
--   admin/users/[id]/page.tsx and admin/settings/payments/page.tsx.
-- - Dates: what the pages use of `Date`, `toISOString` with its exception.
-- - Sync: apps/web/src/app/admin/sync/page.tsx. ApiKey: apps/web/src/app/dashboard/api-key/page.tsx.
-- - Redact: `redactSensitivePayload` of admin/usage/page.tsx and admin/audit/page.tsx; Alike, when
--   two payloads differ in sensitive fields alone.
-- - Tests: the theorems at concrete inputs.
--
-- Numbers are exact. A credit amount is a count of millionths and a price a count of hundredths:
-- doubles agree with them up to 15 significant digits, which is a hypothesis where a text is written
-- and read back; the bound 2^53 - 1 of a safe integer and the one from which `Number` gives Infinity
-- are in the model. The one fuel is that of `to_digits`, n + 1 for a number n, which is more than its
-- digits. What the browser computes is an argument: dates (`Calendar`, `get_time`), upper and
-- lower case outside ASCII, `Number` of a text, `Intl` formats, `URLSearchParams`, JSON and fetch.
--
-- Not modelled: layout, classes and icons; the markup of the sign-in pages, the overviews, the
-- packages and billing pages, synchronisation, users, both settings and the customer's usage; the
-- percentages of the overviews, which are rounded quotients of doubles; the static pages; and the
-- Go service with its database, of whose answers nothing is assumed.
mod Base
pub mod Dates
pub mod Listing
pub mod AdminUsage
pub mod Audit
pub mod Usage
pub mod AdminUsers
pub mod Proxy
pub mod UserDetail
pub mod Settings
pub mod Overview
pub mod Store
pub mod Shell
pub mod Badge
pub mod Markup
pub mod Navigation
pub mod Theme
pub mod Copy
pub mod PaymentSettings
pub mod Text
pub mod Format
pub mod Api
pub mod Packages
pub mod Auth
pub mod Checkout
pub mod Session
pub mod AdminPayments
pub mod Sync
pub mod ApiKey
pub mod Tests
pub mod Redact

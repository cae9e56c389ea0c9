-- ===== src/Checkout.antt =====
-- The checkout page, apps/web/src/app/checkout/[paymentId]/page.tsx: what each payment status means
-- to the customer, and the page that follows a payment.
pub mod Status
pub mod Page
pub mod View

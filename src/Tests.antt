-- ===== src/Tests.antt =====
-- The development on examples.
mod Packages
mod Auth
mod Console
mod Checkout
mod Lists
mod Pages
mod Views

-- ===== src/Api.antt =====
-- apps/web/src/lib/api.ts: the client of the SLAI API.
pub mod Errors
pub mod User
pub mod Admin
pub mod Endpoints
pub mod Fetch

-- ===== src/Store.antt =====
-- internal/database: the SQLite store.
pub mod Schema
pub mod Emergency
pub mod Jobs
pub mod Badges
pub mod Oidc
pub mod Devices
pub mod Webauthn
pub mod SelfService
pub mod Accounts
pub mod OidcClients

-- ===== src/Auth.antt =====
-- internal/auth and internal/badge: roles, signed sessions and badge tokens.
pub mod Primitives
pub mod Permissions
pub mod Sessions
pub mod Badge

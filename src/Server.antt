-- ===== src/Server.antt =====
-- internal/server: the HTTP handlers and the state they keep in memory.
pub mod Grants
pub mod Limiter
pub mod BadgeLogin
pub mod Pkinit
pub mod Guard

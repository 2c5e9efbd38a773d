-- ===== src/Examples.antt =====
-- Tests: the theorems at concrete inputs.
mod Data
mod Pkinit
mod Updates
mod Jobs
mod Devices
mod Badges
mod Oidc
mod Passkeys
mod Provider
mod Install
mod Worker
mod Guarding
mod Primitives
mod Auth
mod Memory
mod Emergency

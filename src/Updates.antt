-- ===== src/Updates.antt =====
-- internal/clientupdate: which release a client accepts, how it is installed, and the worker.
pub mod Versions
pub mod Manifest
pub mod Install
pub mod Worker

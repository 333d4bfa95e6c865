-- ===== src/Dashboard.antt =====
-- The dashboard's stored state: internal/webterm/state_crypto.go and state_store.go.
pub mod Codec
pub mod Database
pub mod Store
pub mod Tables
mod Examples

-- ===== src/Terminal.antt =====
-- internal/terminal: the shell sessions of the bridge, one to a chat, and who may send what to them.
pub mod Policy
pub mod Session
pub mod Manager
mod Examples

-- ===== src/Web.antt =====
-- internal/webterm: the tokens, the console's sessions and the web server.
pub mod Random
pub mod Tokens
pub mod Auth
pub mod Server

-- ===== src/Web/Server/Issued.antt =====
-- A socket token that internal/webterm/server.go issues, and the socket that it opens.
use telegram_remote_terminal.Dashboard.Database.{Database}
use telegram_remote_terminal.Web.Server.{Server}

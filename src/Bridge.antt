-- ===== src/Bridge.antt =====
-- cmd/bridge/main.go: the paths that its mux serves, the install script, the target of a download, and
-- which handler answers which path. The script that the program falls back to is a parameter.
pub mod Start
pub mod Guard
pub mod Revoked
pub mod Joined
mod Examples
use telegram_remote_terminal.Prelude.{
  ℕ, ℤ, Bool, true, false, not, ◌&&◌, ◌||◌, List, [], ◌∷◌, ◌++◌, Bytes, codes, String, Option, none,
  some, Result, ok, err, if◌then◌else◌, eq_bytes,
}
use telegram_remote_terminal.Text.{trim_space, to_lower, is_empty}
use telegram_remote_terminal.Hub.{AgentHub, Answer, answered, joined, not_upgraded, handle_ws}
use telegram_remote_terminal.Dashboard.Codec.{Aead}
use telegram_remote_terminal.Dashboard.Database.{Database}
use telegram_remote_terminal.Dashboard.Store.{
  StoreError, validate_gateway_token, touch_gateway_seen,
}
use telegram_remote_terminal.Web.Auth.{Request, Method}
use telegram_remote_terminal.Web.Server.{
  World, HttpRequest, Reply, refused, panicked, Server, is_get, handle_auth_session,
  handle_auth_login, handle_auth_logout,
}
use telegram_remote_terminal.Web.Server.Gateways.{
  GatewayBody, handle_gateways, handle_gateway_install_command,
}
use telegram_remote_terminal.Web.Server.States.{StateBody, handle_dashboard_state}
use telegram_remote_terminal.Web.Server.Tokens.{
  handle_issue_ws_token, handle_dashboard, handle_page,
}
use telegram_remote_terminal.Web.Server.Sockets.{Attached, attach}

pub data Route : Type 0 where
  dashboard health page socket ws_token_api state_api gateways_api install_api : Route
  session_api login_api logout_api install_script agent_download agent_socket : Route

abbrev routes : List (Bytes × Route)
routes =
    (codes "/healthz", health)
    ∷ (codes "/term", page)
    ∷ (codes "/term/ws", socket)
    ∷ (codes "/term/api/ws-token", ws_token_api)
    ∷ (codes "/term/api/state", state_api)
    ∷ (codes "/term/api/gateways", gateways_api)
    ∷ (codes "/term/api/gateways/install", install_api)
    ∷ (codes "/term/api/auth/session", session_api)
    ∷ (codes "/term/api/auth/login", login_api)
    ∷ (codes "/term/api/auth/logout", logout_api)
    ∷ (codes "/install-agent.sh", install_script)
    ∷ (codes "/agent/download", agent_download)
    ∷ (codes "/agent/ws", agent_socket)
    ∷ []

find_route : Bytes → List (Bytes × Route) → Route
find_route text [] = dashboard
find_route text ((pattern_text, p) ∷ rest) =
    let other = find_route text rest in if eq_bytes text pattern_text then p else other

-- What the mux makes of a path that is clean; `/` stands for all that is not listed.
unfoldable pub route_of : Bytes → Route
unfolding find_route
route_of text = find_route text routes

-- The first candidate that can be read, else the fallback.
unfoldable pub read_install_script : (Bytes → Option Bytes) → Bytes → List Bytes → Bytes
read_install_script read_file fallback [] = fallback
read_install_script read_file fallback (p ∷ candidates) =
    let rest = read_install_script read_file fallback candidates in
    elim (read_file p) [ some content ↦ content | none ↦ rest ]

-- `exe_dir` is the directory of the program, and `join` is `filepath.Join`.
abbrev pub script_candidates :
    (join : Bytes → Bytes → Bytes) → (exe_dir : Option Bytes) → List Bytes
script_candidates join none = codes "scripts/install-agent.sh" ∷ []
script_candidates join (some dir) =
    codes "scripts/install-agent.sh"
    ∷ join dir (codes "scripts/install-agent.sh")
    ∷ join dir (codes "../scripts/install-agent.sh")
    ∷ []

abbrev value_or : Bytes → Bytes → Bytes
value_or text fallback = if is_empty text then fallback else text

-- The system and the architecture of a download; `none` is a target that is not supported.
unfoldable pub download_target : (Bytes → Bytes) → (system arch : Bytes) → Option (Bytes × Bytes)
download_target fold system arch =
    let goos = value_or (trim_space (to_lower fold system)) (codes "linux") in
    let goarch = value_or (trim_space (to_lower fold arch)) (codes "amd64") in
    if not (eq_bytes goos (codes "linux"))
      || (not (eq_bytes goarch (codes "amd64")) && not (eq_bytes goarch (codes "arm64")))
    then none
    else some (goos, goarch)

-- What a request is answered with.
pub data Served : Type 0 where
  replied : Reply → Served
  healthy : Served
  socket_end : Attached → Served
  script : Bytes → Served
  binary : (file_name : Bytes) → Served
  agent_end : Answer → Served

-- The bodies, as each handler decodes them, and the query of a download.
pub record Bodies : Type 0 where
  pub gateway : GatewayBody
  pub state : Option StateBody
  pub chat : Option ℤ
  pub system : Bytes
  pub arch : Bytes

-- What the handlers take from outside the repository.
pub record Outside : Type 0 where
  pub url_text : (scheme host path : Bytes) → Bytes
  pub fold : Bytes → Bytes
  pub check : Bytes → Bytes → Bool
  pub parse_time : Bytes → Option ℕ
  pub reencode : Bytes → Option Bytes
  pub read_file : Bytes → Option Bytes
  pub fallback : Bytes
  pub join : Bytes → Bytes → Bytes
  pub exe_dir : Option Bytes
  pub page_readable : Bool
  pub upgrades : Bool
  -- the start of the times of Unix
  pub epoch : ℕ
  -- whether a binary is built and read
  pub makes_temp : Bool
  pub builds : Bool
  pub reads_binary : Bool

unfoldable pub serve_install_script : Outside → Method → Served
unfolding read_install_script
serve_install_script o m =
    if not (is_get m)
    then replied (refused "method not allowed" 405)
    else script (read_install_script o.read_file o.fallback (script_candidates o.join o.exe_dir))

abbrev built : Outside → Option (Bytes × Bytes) → Served
built o none = replied (refused "unsupported target" 400)
built o (some (goos, goarch)) =
    if not o.makes_temp
    then replied (refused "create temp failed" 500)
    else if not o.builds
    then replied (refused "build agent failed" 500)
    else if not o.reads_binary
    then replied (refused "read binary failed" 500)
    else binary (codes "terminal-bridge-agent-" ++ (goos ++ (b'-' ∷ goarch)))

unfoldable pub serve_download : Outside → Method → (system arch : Bytes) → Served
unfolding download_target
serve_download o m system arch =
    if not (is_get m)
    then replied (refused "method not allowed" 405)
    else built o (download_target o.fold system arch)

module _ (D : Database) (codec : Option Aead) (o : Outside) where
  abbrev pub verdict : Result StoreError Bool → Option Bool
  verdict (err e) = none
  verdict (ok b) = some b

  -- The validator that the hub is made with.
  unfoldable pub validator : Option D.Db → Bool → Bytes → Bytes → Option Bool
  unfolding validate_gateway_token
  validator none works id token = none
  validator (some d) works id token = verdict (validate_gateway_token D codec d works id token)

  abbrev touched : Server D → World → Bytes → Answer → Server D
  touched s w id (joined c) = elim s.store [
    | none ↦ s
    | some d ↦ record s {
      store = some (touch_gateway_seen D d w.db_works w.db_now (trim_space id)).0;
    }
  ]
  touched s w id (answered status) = s
  touched s w id not_upgraded = s

  abbrev hub_end : Server D → World → Bytes → AgentHub × Answer → Server D × Served
  hub_end s w id (h', a) = (touched (record s { agent_hub = some h' }) w id a, agent_end a)

  unfoldable pub serve_agent_socket : Server D → World → HttpRequest → Server D × Served
  unfolding handle_ws validator touch_gateway_seen
  serve_agent_socket s w r = elim s.agent_hub [
    | none ↦ (s, replied panicked)
    | some h ↦
        hub_end s w r.agent_id
          (handle_ws (validator s.store w.db_works) h r.agent_id r.token o.upgrades)
  ]

  abbrev reply_of : Server D × Reply → Server D × Served
  reply_of (s, r) = (s, replied r)

  abbrev socket_of : Server D × Attached → Server D × Served
  socket_of (s, a) = (s, socket_end a)

  unfoldable pub serve : Server D → World → Route → HttpRequest → Bodies → Server D × Served
  unfolding handle_auth_session handle_auth_login handle_auth_logout handle_gateways
      handle_gateway_install_command handle_dashboard_state handle_issue_ws_token handle_dashboard
      handle_page attach serve_install_script serve_download serve_agent_socket
  serve s w dashboard r b = reply_of (handle_dashboard D o.page_readable s r)
  serve s w health r b = (s, healthy)
  serve s w page r b = reply_of (handle_page D o.page_readable s w r)
  serve s w socket r b = socket_of (attach D s w r o.upgrades)
  serve s w ws_token_api r b = reply_of (handle_issue_ws_token D codec s w r b.chat)
  serve s w state_api r b = reply_of (handle_dashboard_state D codec o.reencode s w r b.state)
  serve s w gateways_api r b =
      reply_of (handle_gateways D codec o.url_text o.fold o.parse_time s w r b.gateway)
  serve s w install_api r b =
      reply_of (handle_gateway_install_command D codec o.url_text o.fold o.parse_time s w r)
  serve s w session_api r b = reply_of (handle_auth_session D s w.now r.base)
  serve s w login_api r b =
      reply_of (handle_auth_login D o.check o.fold s w.now w.token_bytes r.base)
  serve s w logout_api r b = reply_of (handle_auth_logout D o.fold s o.epoch r.base)
  serve s w install_script r b = (s, serve_install_script o r.base.method)
  serve s w agent_download r b = (s, serve_download o r.base.method b.system b.arch)
  serve s w agent_socket r b = serve_agent_socket s w r

-- ===== src/Web/Server/Gateways.antt =====
-- The handlers of internal/webterm/server.go for the gateways.
use telegram_remote_terminal.Prelude.{
  ℕ, Bool, false, not, List, [], ◌++◌, Bytes, codes, Option, none, some, Map, Result, ok, err,
  if◌then◌else◌, eq_bytes, is_some,
}
use telegram_remote_terminal.Text.{trim_space, to_lower, is_empty}
use telegram_remote_terminal.Hub.{AgentHub, has_agent, uninstall}
use telegram_remote_terminal.Dashboard.Codec.{Aead}
use telegram_remote_terminal.Dashboard.Database.{Database}
use telegram_remote_terminal.Dashboard.Store.{
  StoreError, GatewayRecord, normalize_agent_id, create_gateway, get_gateway_token, rename_gateway,
  delete_gateway, list_gateways,
}
use telegram_remote_terminal.Web.Auth.{
  Method, get_method, post_method, put_method, delete_method, other_method,
}
use telegram_remote_terminal.Web.Server.{
  World, HttpRequest, Reply, refused, gateway_list, gateway_created, gateway_renamed,
  gateway_deleted, install_command, Server, require_console_auth, guarded, is_get,
}

-- What the JSON decoder made of the body, and whether it failed.
pub record GatewayBody : Type 0 where
  pub agent_id : Bytes
  pub name : Bytes
  pub decoded : Bool

-- `url_text` is `URL.String` of a scheme, a host and a path.
module _ (url_text : (scheme host path : Bytes) → Bytes) (fold : Bytes → Bytes) where
  abbrev host_of : HttpRequest → Bytes
  host_of r =
      if is_empty (trim_space r.forwarded_host)
      then trim_space r.host
      else trim_space r.forwarded_host

  abbrev is_secure : HttpRequest → Bool
  is_secure r =
      let proto = trim_space (to_lower fold r.base.forwarded_proto) in
      if is_empty proto then r.base.tls else eq_bytes proto (codes "https")

  unfoldable pub build_install_command : HttpRequest → (agent_id token : Bytes) → Bytes
  build_install_command r agent_id token =
      let host = host_of r in
      let http_scheme = if is_secure r then codes "https" else codes "http" in
      let ws_scheme = if is_secure r then codes "wss" else codes "ws" in
      codes "curl --noproxy '*' -fsSL '"
      ++ (url_text http_scheme host (codes "/install-agent.sh")
          ++ (codes "' | AGENT_ID="
              ++ (agent_id
                  ++ (codes " AGENT_TOKEN="
                      ++ (token
                          ++ (codes " AGENT_SERVER_URL='"
                              ++ (url_text ws_scheme host (codes "/agent/ws")
                                  ++ (codes "' AGENT_HTTP_BASE='"
                                      ++ (url_text http_scheme host []
                                          ++ codes "' AGENT_CURL_NOPROXY='*' bash")))))))))

abbrev pub online_set : Option AgentHub → Map Bytes ℕ
online_set none = []
online_set (some h) = h.agents

module _ (D : Database) (codec : Option Aead) (url_text : (scheme host path : Bytes) → Bytes)
    (fold : Bytes → Bytes) (parse : Bytes → Option ℕ) where
  abbrev list_reply : Result StoreError (List GatewayRecord) → Reply
  list_reply (err e) = refused "list gateways failed" 500
  list_reply (ok items) = gateway_list items

  abbrev pub created_reply :
      Server D → HttpRequest → D.Db × Result StoreError (Bytes × Bytes) → Server D × Reply
  created_reply s r (d', err e) =
      (record s { store = some d' }, refused "create gateway failed" 400)
  created_reply s r (d', ok (agent_id, token)) = (
    record s { store = some d' },
    gateway_created agent_id token (build_install_command url_text fold r agent_id token),
  )

  abbrev renamed_reply : Server D → D.Db × Option StoreError → Server D × Reply
  renamed_reply s (d', some e) = (record s { store = some d' }, refused "rename gateway failed" 400)
  renamed_reply s (d', none) = (record s { store = some d' }, gateway_renamed)

  -- An agent that is connected is told to uninstall itself; `true` is that this was written.
  abbrev pub uninstall_online : Option AgentHub → Bytes → Bool → Option AgentHub × Bool
  uninstall_online none agent_id writes = (none, false)
  uninstall_online (some h) agent_id writes =
      if has_agent h agent_id
      then (let (h', e) = uninstall h agent_id writes in (some h', not (is_some e)))
      else (some h, false)

  abbrev pub deleted_reply :
      Server D → Bytes → Option AgentHub × Bool → D.Db × Option StoreError → Server D × Reply
  deleted_reply s agent_id (hub', uninstalled) (d', some e) =
      (record s { store = some d'; agent_hub = hub' }, refused "delete gateway failed" 400)
  deleted_reply s agent_id (hub', uninstalled) (d', none) =
      (record s { store = some d'; agent_hub = hub' }, gateway_deleted agent_id uninstalled)

  -- The methods of `HandleGateways`; `d` is the store.
  unfoldable pub serve_gateways :
      Server D → D.Db → World → HttpRequest → GatewayBody → Method → Server D × Reply
  unfolding build_install_command create_gateway rename_gateway delete_gateway list_gateways
      has_agent uninstall
  serve_gateways s d w r body get_method =
      (s, list_reply (list_gateways D parse d w.db_works (online_set s.agent_hub)))
  serve_gateways s d w r body post_method =
      created_reply s r
        (create_gateway D codec d w.db_works w.db_now w.draws body.agent_id body.name)
  serve_gateways s d w r body put_method =
      if not body.decoded
      then (s, refused "invalid json body" 400)
      else renamed_reply s (rename_gateway D d w.db_works w.db_now body.agent_id body.name)
  serve_gateways s d w r body delete_method =
      let agent_id = normalize_agent_id r.agent_id in
      if is_empty agent_id
      then (s, refused "agent_id required" 400)
      else deleted_reply s agent_id (uninstall_online s.agent_hub agent_id w.writes)
          (delete_gateway D d w.db_works agent_id)
  serve_gateways s d w r body (other_method m) = (s, refused "method not allowed" 405)

  abbrev pub with_store :
      Option D.Db → Server D → World → HttpRequest → GatewayBody → Server D × Reply
  with_store none s w r body = (s, refused "dashboard state store not configured" 503)
  with_store (some d) s w r body =
      guarded D (require_console_auth D s w.now r.base)
        (λ s'. serve_gateways s' d w r body r.base.method)

  unfoldable pub handle_gateways : Server D → World → HttpRequest → GatewayBody → Server D × Reply
  unfolding require_console_auth serve_gateways
  handle_gateways s w r body = with_store s.store s w r body

  abbrev command_reply : HttpRequest → Bytes → Result StoreError (Option Bytes) → Reply
  command_reply r agent_id (err e) = refused "read gateway failed" 500
  command_reply r agent_id (ok none) = refused "gateway not found" 404
  command_reply r agent_id (ok (some token)) =
      install_command agent_id (build_install_command url_text fold r agent_id token)

  unfoldable pub handle_gateway_install_command : Server D → World → HttpRequest → Server D × Reply
  unfolding require_console_auth build_install_command get_gateway_token
  handle_gateway_install_command s w r = elim s.store [
    | none ↦ (s, refused "dashboard state store not configured" 503)
    | some d ↦
        if not (is_get r.base.method)
        then (s, refused "method not allowed" 405)
        else guarded D (require_console_auth D s w.now r.base) (λ s'.
          let agent_id = normalize_agent_id r.agent_id in
          if is_empty agent_id
          then (s', refused "agent_id required" 400)
          else (s', command_reply r agent_id (get_gateway_token D codec d w.db_works agent_id)))
  ]

-- ===== src/Bridge/Revoked.antt =====
-- A gateway that is deleted through cmd/bridge/main.go's handlers, and its agent at the hub.
use telegram_remote_terminal.Prelude.{
  if_true, if_false, ◌≡◌, refl, ◌∙◌, ap, ◌||◌, Bool, true, false, not, Bytes, Option, none, some,
  if◌then◌else◌, eq_bytes, eq_bytes_iff,
}
use telegram_remote_terminal.Text.{trim_space, is_empty}
use telegram_remote_terminal.Hub.{AgentHub, Answer, answered, joined, not_upgraded, join, handle_ws}
use telegram_remote_terminal.Dashboard.Codec.{Aead}
use telegram_remote_terminal.Dashboard.Database.{Database}
use telegram_remote_terminal.Dashboard.Store.{
  StoreError, normalize_agent_id, validate_gateway_token, get_gateway_token, delete_gateway,
}
use telegram_remote_terminal.Dashboard.Store.Gateways.{validate-delete_gateway}
use telegram_remote_terminal.Dashboard.Store.Ids.{
  normalize_agent_id_self, normalize_agent_id-IsAgentId,
}
use telegram_remote_terminal.Web.Auth.{delete_method}
use telegram_remote_terminal.Web.Server.{
  World, HttpRequest, Server, require_console_auth, guarded-admitted,
}
use telegram_remote_terminal.Web.Server.Gateways.{
  GatewayBody, serve_gateways, handle_gateways, uninstall_online, deleted_reply,
}
use telegram_remote_terminal.Web.Server.Gateways
use telegram_remote_terminal.Bridge.{
  gateways_api, agent_socket, agent_end, Bodies, Outside, validator, serve_agent_socket, serve,
}

abbrev pub judged : AgentHub → Bytes → Bool → Option Bool → AgentHub × Answer
judged h id upgrades o = elim o [
  | none ↦ (h, answered 403)
  | some valid ↦
      if not valid
      then (h, answered 403)
      else if not upgrades
      then (h, not_upgraded)
      else (let (h', c) = join h id in (h', joined c))
]

judged_no :
    (h : AgentHub) (id : Bytes) (upgrades : Bool) (o : Option Bool)
    → ((b : Bool) → o ≡ some b → b ≡ false)
    → judged h id upgrades o ≡ (h, answered 403)
judged_no h id upgrades none refuses = refl
judged_no h id upgrades (some b) refuses = rw (refuses b refl) refl

-- A hub whose validator does not accept answers 403.
refused_agent :
    (validate : Bytes → Bytes → Option Bool) (h : AgentHub) (id token : Bytes) (upgrades : Bool)
    → h.enabled ≡ true
    → is_empty (trim_space id) || is_empty (trim_space token) ≡ false
    → ((b : Bool) → validate (trim_space id) (trim_space token) ≡ some b → b ≡ false)
    → handle_ws validate h id token upgrades ≡ (h, answered 403)
unfolding handle_ws
refused_agent validate h id token upgrades on given refuses =
    if_false (not h.enabled) _ _ (ap not on)
    ∙ (if_false (is_empty (trim_space id) || is_empty (trim_space token)) _ _ given
        ∙ judged_no h (trim_space id) upgrades (validate (trim_space id) (trim_space token))
            refuses)

module _ (D : Database) (codec : Option Aead) (o : Outside) where
  validator-deleted :
      (d : D.Db) (works : Bool) (id agent t : Bytes)
      → is_empty (normalize_agent_id id) ≡ false
      → normalize_agent_id id ≡ normalize_agent_id agent
      → (b : Bool)
      → validator D codec o (some (delete_gateway D d true id).0) works agent t ≡ some b
      → b ≡ false
  unfolding validator validate_gateway_token get_gateway_token
  validator-deleted d true id agent t named same b h =
      let refused =
        (validate-delete_gateway D codec d id named).0 agent t
        ∙ if_true (eq_bytes (normalize_agent_id id) (normalize_agent_id agent)) _ _
            ((eq_bytes_iff (normalize_agent_id id) (normalize_agent_id agent)).1 same) in
      cc (rw (validator, refused) at h)
  validator-deleted d false id agent t named same b h =
      let unnamed : is_empty (normalize_agent_id agent) ≡ false = rw (← same) named in
      cc (rw (validator, validate_gateway_token, get_gateway_token, unnamed) at h)

  deleted_kept :
      (s : Server D) (id : Bytes) (x : Option AgentHub × Bool) (y : D.Db × Option StoreError)
      → ((deleted_reply D codec o.url_text o.fold o.parse_time s id x y).0.store ≡ some y.0)
        × ((deleted_reply D codec o.url_text o.fold o.parse_time s id x y).0.agent_hub ≡ x.0)
  deleted_kept s id x (d', none) = (refl, refl)
  deleted_kept s id x (d', some e) = (refl, refl)

  socket_refused :
      (t : Server D) (d : D.Db) (h : AgentHub) (w : World) (r : HttpRequest)
      → t.store ≡ some d
      → t.agent_hub ≡ some h
      → h.enabled ≡ true
      → is_empty (trim_space r.agent_id) || is_empty (trim_space r.token) ≡ false
      → ((b : Bool)
          → validator D codec o (some d) w.db_works (trim_space r.agent_id) (trim_space r.token)
            ≡ some b
          → b ≡ false)
      → ((serve_agent_socket D codec o t w r).1 ≡ agent_end (answered 403))
        × ((serve_agent_socket D codec o t w r).0.agent_hub ≡ some h)
  unfolding serve_agent_socket
  socket_refused t d h w r there hub on given refuses =
      rw
        (
          serve_agent_socket,
          hub,
          there,
          refused_agent (validator D codec o (some d) w.db_works) h r.agent_id r.token o.upgrades on
              given refuses,
        )
        (refl, refl)

  -- What a DELETE does that passes the login.
  deleted :
      (s : Server D) (d : D.Db) (w : World) (r : HttpRequest) (body : GatewayBody)
      → s.store ≡ some d
      → (require_console_auth D s w.now r.base).1 ≡ none
      → r.base.method ≡ delete_method
      → w.db_works ≡ true
      → is_empty (normalize_agent_id r.agent_id) ≡ false
      → handle_gateways D codec o.url_text o.fold o.parse_time s w r body ≡ (
          let s1 = (require_console_auth D s w.now r.base).0 in
          let id = normalize_agent_id r.agent_id in
          deleted_reply D codec o.url_text o.fold o.parse_time s1 id
            (uninstall_online D codec o.url_text o.fold o.parse_time s1.agent_hub id w.writes)
            (delete_gateway D d true id))
  unfolding handle_gateways serve_gateways
  deleted s d w r body there login deletes works named =
      let s1 = (require_console_auth D s w.now r.base).0 in
      ap (λ x. Gateways.with_store D codec o.url_text o.fold o.parse_time x s w r body) there
      ∙ (guarded-admitted D (require_console_auth D s w.now r.base) _ login
          ∙ (ap (serve_gateways D codec o.url_text o.fold o.parse_time s1 d w r body) deletes
              ∙ rw (named, works) refl))

  -- After a DELETE of a gateway by a request that passes the login, on a database that works, no agent
  -- gets in by any text that names the gateway and any token that is not blank: the hub answers 403,
  -- and stays as it is.
  pub agent-deleted :
      (s : Server D) (d : D.Db) (w w' : World) (r r' : HttpRequest) (b b' : Bodies) (h : AgentHub)
      → s.store ≡ some d
      → (require_console_auth D s w.now r.base).1 ≡ none
      → r.base.method ≡ delete_method
      → w.db_works ≡ true
      → is_empty (normalize_agent_id r.agent_id) ≡ false
      → (serve D codec o s w gateways_api r b).0.agent_hub ≡ some h
      → h.enabled ≡ true
      → is_empty (trim_space r'.agent_id) || is_empty (trim_space r'.token) ≡ false
      → normalize_agent_id r.agent_id ≡ normalize_agent_id (trim_space r'.agent_id)
      → let (s', end) =
          serve D codec o (serve D codec o s w gateways_api r b).0 w' agent_socket r' b' in
        (end ≡ agent_end (answered 403)) × (s'.agent_hub ≡ some h)
  unfolding serve
  agent-deleted s d w w' r r' b b' h there login deletes works named hub on given same =
      let e = deleted s d w r b.gateway there login deletes works named in
      let id = normalize_agent_id r.agent_id in
      let again : normalize_agent_id id ≡ id =
        normalize_agent_id_self id (normalize_agent_id-IsAgentId r.agent_id) in
      let (store_is, _) =
        deleted_kept (require_console_auth D s w.now r.base).0 id
          (uninstall_online D codec o.url_text o.fold o.parse_time
            (require_console_auth D s w.now r.base).0.agent_hub id w.writes)
          (delete_gateway D d true id) in
      socket_refused (serve D codec o s w gateways_api r b).0 (delete_gateway D d true id).0 h w' r'
        (ap (λ x. x.0.store) e ∙ store_is) hub on given
        (validator-deleted d w'.db_works id (trim_space r'.agent_id) (trim_space r'.token)
          (rw (again) named) (again ∙ same))

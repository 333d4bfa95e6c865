-- ===== src/Bridge/Joined.antt =====
-- A gateway that is created through cmd/bridge/main.go's handlers, and its agent at the hub.
use telegram_remote_terminal.Prelude.{
  bytes_key, nat_key, ◌≡◌, ◌≤◌, refl, ◌∙◌, sym, ap, ◌||◌, Bool, true, false, not, Bytes, Option,
  none, some, Result, ok, err, All, length, if_false, eq_bytes_iff,
}
use telegram_remote_terminal.Text.{trim_space, is_empty}
use telegram_remote_terminal.Hub.{AgentHub, joined, join, handle_ws}
use telegram_remote_terminal.Hub.Joins.{HasJoined, join-HasJoined}
use telegram_remote_terminal.Dashboard.Codec.{Aead}
use telegram_remote_terminal.Dashboard.Codec.RoundTrip.{NonceFits}
use telegram_remote_terminal.Dashboard.Database.{Database}
use telegram_remote_terminal.Dashboard.Store.{StoreError, normalize_agent_id, create_gateway}
use telegram_remote_terminal.Dashboard.Store.Gateways.{validate-create_gateway}
use telegram_remote_terminal.Web.Random.{IsByte}
use telegram_remote_terminal.Web.Auth.{post_method}
use telegram_remote_terminal.Web.Server.{
  World, HttpRequest, Reply, gateway_created, Server, require_console_auth, guarded-admitted,
}
use telegram_remote_terminal.Web.Server.Gateways
use telegram_remote_terminal.Web.Server.Gateways.{
  GatewayBody, serve_gateways, handle_gateways, created_reply,
}
use telegram_remote_terminal.Bridge.{
  gateways_api, agent_socket, replied, agent_end, Bodies, Outside, validator, serve_agent_socket,
  serve, reply_of,
}
use telegram_remote_terminal.Bridge.Revoked.{judged}

-- A hub whose validator accepts lets the agent join.
accepted_agent :
    (validate : Bytes → Bytes → Option Bool) (h : AgentHub) (id token : Bytes) (upgrades : Bool)
    → h.enabled ≡ true
    → is_empty (trim_space id) || is_empty (trim_space token) ≡ false
    → validate (trim_space id) (trim_space token) ≡ some true
    → upgrades ≡ true
    → handle_ws validate h id token upgrades ≡ ((join h (trim_space id)).0, joined h.next)
unfolding handle_ws join
accepted_agent validate h id token upgrades on given accepts up =
    if_false (not h.enabled) _ _ (ap not on)
    ∙ (if_false (is_empty (trim_space id) || is_empty (trim_space token)) _ _ given
        ∙ ap (judged h (trim_space id) upgrades) accepts
        ∙ if_false (not upgrades) _ _ (ap not up))

module _ (D : Database) (codec : Option Aead) (o : Outside) where
  created_ok :
      (s s' : Server D) (r : HttpRequest) (id token command : Bytes)
      (x : D.Db × Result StoreError (Bytes × Bytes))
      → created_reply D codec o.url_text o.fold o.parse_time s r x
        ≡ (s', gateway_created id token command)
      → (x ≡ (x.0, ok (id, token))) × (s'.store ≡ some x.0)
  created_ok s s' r id token command (d', err e) h = cc
  created_ok s s' r id token command (d', ok (i, t)) h = (cc, ap (λ y. y.0.store) (sym h))

  -- What a POST does that passes the login.
  created :
      (s : Server D) (d : D.Db) (w : World) (r : HttpRequest) (body : GatewayBody)
      → s.store ≡ some d
      → (require_console_auth D s w.now r.base).1 ≡ none
      → r.base.method ≡ post_method
      → w.db_works ≡ true
      → handle_gateways D codec o.url_text o.fold o.parse_time s w r body
        ≡ created_reply D codec o.url_text o.fold o.parse_time
            (require_console_auth D s w.now r.base).0
            r
            (create_gateway D codec d true w.db_now w.draws body.agent_id body.name)
  unfolding handle_gateways serve_gateways
  created s d w r body there login posts works =
      let s1 = (require_console_auth D s w.now r.base).0 in
      ap (λ x. Gateways.with_store D codec o.url_text o.fold o.parse_time x s w r body) there
      ∙ (guarded-admitted D (require_console_auth D s w.now r.base) _ login
          ∙ (ap (serve_gateways D codec o.url_text o.fold o.parse_time s1 d w r body) posts
              ∙ rw works refl))

  socket_accepted :
      (t : Server D) (d : D.Db) (h : AgentHub) (w : World) (r : HttpRequest)
      → o.upgrades ≡ true
      → t.store ≡ some d
      → t.agent_hub ≡ some h
      → h.enabled ≡ true
      → is_empty (trim_space r.agent_id) || is_empty (trim_space r.token) ≡ false
      → validator D codec o (some d) w.db_works (trim_space r.agent_id) (trim_space r.token)
        ≡ some true
      → ((serve_agent_socket D codec o t w r).1 ≡ agent_end (joined h.next))
        × ((serve_agent_socket D codec o t w r).0.agent_hub
            ≡ some (join h (trim_space r.agent_id)).0)
  unfolding serve_agent_socket
  socket_accepted t d h w r upgrades there hub on given accepts =
      let answer =
        accepted_agent (validator D codec o (some d) w.db_works) h r.agent_id r.token o.upgrades on
          given accepts upgrades in
      (
        rw (serve_agent_socket, hub, there, answer) refl,
        rw (serve_agent_socket, hub, there, answer) refl,
      )

  -- The agent of a gateway that was just created gets in: after a POST that passes the login and is
  -- answered with a gateway and its token, an agent that comes with that token, as that gateway by any
  -- text that normalizes to it, joins the hub. Its connection, new and open, is then the one that the
  -- hub has for the trimmed text that it came as; every other agent has the connection it had, and
  -- every connection but the one that the agent had before is as it was. The random source gives bytes, at most 22 for the identifier, the nonce fits the cipher, the database
  -- works and the upgrade succeeds.
  pub agent-created :
      (s s' : Server D) (d : D.Db) (w w' : World) (r r' : HttpRequest) (b b' : Bodies)
      (h : AgentHub) (id token command id_bytes token_bytes : Bytes)
      → s.store ≡ some d
      → (require_console_auth D s w.now r.base).1 ≡ none
      → r.base.method ≡ post_method
      → w.db_works ≡ true
      → w'.db_works ≡ true
      → o.upgrades ≡ true
      → w.draws.id_bytes ≡ some id_bytes
      → w.draws.token_bytes ≡ some token_bytes
      → length id_bytes ≤ 22
      → All IsByte id_bytes
      → All IsByte token_bytes
      → ((a : Aead) → codec ≡ some a → NonceFits a w.draws.nonce)
      → serve D codec o s w gateways_api r b ≡ (s', replied (gateway_created id token command))
      → s'.agent_hub ≡ some h
      → h.enabled ≡ true
      → is_empty (trim_space r'.agent_id) || is_empty (trim_space r'.token) ≡ false
      → normalize_agent_id (trim_space r'.agent_id) ≡ id
      → trim_space r'.token ≡ token
      → let (s'', end) = serve D codec o s' w' agent_socket r' b' in
        (end ≡ agent_end (joined h.next))
        × ((h' : AgentHub) × (s''.agent_hub ≡ some h') × HasJoined (trim_space r'.agent_id) h h')
  unfolding serve validator
  agent-created s s' d w w' r r' b b' h id token command id_bytes token_bytes there login posts
        works works' up eb ec short bytes_b bytes_c fits e hub on given named same =
      let x = create_gateway D codec d true w.db_now w.draws b.gateway.agent_id b.gateway.name in
      let reply : created_reply D codec o.url_text o.fold o.parse_time
            (require_console_auth D s w.now r.base).0 r x
          ≡ (s', gateway_created id token command) =
        sym (created s d w r b.gateway there login posts works)
        ∙ unreplied (handle_gateways D codec o.url_text o.fold o.parse_time s w r b.gateway) e in
      let (made, store_is) =
        created_ok (require_console_auth D s w.now r.base).0 s' r id token command x reply in
      let valid =
        validate-create_gateway D codec d x.0 w.db_now w.draws b.gateway.agent_id b.gateway.name id
          token id_bytes token_bytes eb ec short bytes_b bytes_c fits made (trim_space r'.agent_id)
          token in
      let (answer, hub_is) = socket_accepted s' x.0 h w' r' up store_is hub on given (
        rw
          (
            works',
            same,
            valid,
            (eq_bytes_iff id (normalize_agent_id (trim_space r'.agent_id))).1 (sym named),
          )
          (rw ((eq_bytes_iff token token).1 refl) refl)) in
      (
        answer,
        ((join h (trim_space r'.agent_id)).0, hub_is, join-HasJoined h (trim_space r'.agent_id)),
      )
    where
      unreplied :
          (p : Server D × Reply) {s' : Server D} {y : Reply}
          → reply_of D codec o p ≡ (s', replied y)
          → p ≡ (s', y)
      unreplied (s1, y1) h = cc

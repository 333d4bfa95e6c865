-- ===== src/Bridge/Guard.antt =====
-- The login in front of the handlers that cmd/bridge/main.go registers.
use telegram_remote_terminal.Prelude.{
  ℕ, ℤ, ◌≡◌, refl, ◌⊎◌, inl, inr, false, ◌||◌, Option, none, some, Bool-cases,
}
use telegram_remote_terminal.Dashboard.Codec.{Aead}
use telegram_remote_terminal.Dashboard.Database.{Database}
use telegram_remote_terminal.Web.Auth.{
  ConsoleAuth, Request, http_error, is_authenticated, require_auth, is_post,
}
use telegram_remote_terminal.Web.Server.{
  World, HttpRequest, Reply, refused, console, Server, is_get, require_console_auth, guarded,
}
use telegram_remote_terminal.Web.Server.Gateways.{
  GatewayBody, handle_gateways, handle_gateway_install_command, serve_gateways,
}
use telegram_remote_terminal.Web.Server.Gateways
use telegram_remote_terminal.Web.Server.States.{StateBody, handle_dashboard_state, with_store}
use telegram_remote_terminal.Web.Server.Tokens.{handle_issue_ws_token}
use telegram_remote_terminal.Bridge.{
  Route, ws_token_api, state_api, gateways_api, install_api, replied, Bodies, Outside, serve,
}

-- the paths of the console's own data
pub data Behind : Route → Type 0 where
  tokens_behind : Behind ws_token_api
  states_behind : Behind state_api
  gateways_behind : Behind gateways_api
  install_behind : Behind install_api

-- The answers that tell nothing: a method or a store that is missing, or the demand to log in.
pub data IsTurnedAway : Reply → Type 0 where
  no_method : IsTurnedAway (refused "method not allowed" 405)
  no_store : IsTurnedAway (refused "dashboard state store not configured" 503)
  no_login : IsTurnedAway (console (http_error "unauthorized" 401))

module _ (D : Database) (codec : Option Aead) where
  -- The server after the sweep that comes with the check of a cookie.
  abbrev pub swept : Server D → ConsoleAuth → ℕ → Request → Server D
  swept s a now r = record s { auth = some (is_authenticated a now r.cookie).0 }

  require-unauthenticated :
      (s : Server D) (a : ConsoleAuth) (now : ℕ) (r : Request)
      → s.auth ≡ some a
      → (is_authenticated a now r.cookie).1 ≡ false
      → require_console_auth D s now r
        ≡ (swept s a now r, some (console (http_error "unauthorized" 401)))
  unfolding require_console_auth require_auth
  require-unauthenticated s a now r on out = rw (on, require_console_auth, require_auth, out) refl

  abbrev IsBarred : Server D → ConsoleAuth → ℕ → Request → Server D × Reply → Type 0
  IsBarred s a now r (s', reply) = IsTurnedAway reply × ((s' ≡ s) ⊎ (s' ≡ swept s a now r))

  guard-IsBarred :
      (s : Server D) (a : ConsoleAuth) (now : ℕ) (r : Request) (k : Server D → Server D × Reply)
      → s.auth ≡ some a
      → (is_authenticated a now r.cookie).1 ≡ false
      → IsBarred s a now r (guarded D (require_console_auth D s now r) k)
  guard-IsBarred s a now r k on out =
      rw (require-unauthenticated s a now r on out) (no_login, inr refl)

  module _ (o : Outside) (s : Server D) (a : ConsoleAuth) (w : World) (r : HttpRequest)
      (on : s.auth ≡ some a) (out : (is_authenticated a w.now r.base.cookie).1 ≡ false) where
    abbrev Barred : Server D × Reply → Type 0
    Barred = IsBarred s a w.now r.base

    -- What the handlers that need the store begin with.
    store-Barred :
        (store : Option D.Db) (k : D.Db → Server D × Reply)
        → ((d : D.Db) → Barred (k d))
        → Barred (elim store [
          | none ↦ (s, refused "dashboard state store not configured" 503)
          | some d ↦ k d
        ])
    store-Barred none k h = (no_store, inl refl)
    store-Barred (some d) k h = h d

    states-Barred :
        (body : Option StateBody) → Barred (handle_dashboard_state D codec o.reencode s w r body)
    unfolding handle_dashboard_state
    states-Barred body =
        elim s.store as (λ store. Barred (with_store D codec o.reencode store s w r body)) [
          | none ↦ (no_store, inl refl)
          | some d ↦ guard-IsBarred s a w.now r.base _ on out
        ]

    gateways-Barred :
        (body : GatewayBody)
        → Barred (handle_gateways D codec o.url_text o.fold o.parse_time s w r body)
    unfolding handle_gateways
    gateways-Barred body =
        elim s.store
          as (λ store.
            Barred (Gateways.with_store D codec o.url_text o.fold o.parse_time store s w r body)) [
              | none ↦ (no_store, inl refl)
              | some d ↦ guard-IsBarred s a w.now r.base _ on out
            ]

    install-Barred :
        Barred (handle_gateway_install_command D codec o.url_text o.fold o.parse_time s w r)
    unfolding handle_gateway_install_command
    install-Barred = store-Barred s.store _ (λ d. elim (Bool-cases (is_get r.base.method)) [
      | inl got ↦ rw got (guard-IsBarred s a w.now r.base _ on out)
      | inr other ↦ rw other (no_method, inl refl)
    ])

    tokens-Barred : (chat : Option ℤ) → Barred (handle_issue_ws_token D codec s w r chat)
    unfolding handle_issue_ws_token
    tokens-Barred chat = elim (Bool-cases (is_post r.base.method || is_get r.base.method)) [
      | inl fits ↦ rw (fits, handle_issue_ws_token) (guard-IsBarred s a w.now r.base _ on out)
      | inr other ↦ rw (other, handle_issue_ws_token) (no_method, inl refl)
    ]

    -- A request without a valid session to a path of the console's own data gets an answer that tells
    -- nothing, and changes nothing but the sweep of expired sessions: no token is issued, no gateway
    -- and no state is read or written, and no agent is told anything.
    pub serve_unauthenticated :
        (p : Route) (b : Bodies)
        → Behind p
        → (reply : Reply) × ((serve D codec o s w p r b).1 ≡ replied reply)
          × (IsTurnedAway reply
              × (((serve D codec o s w p r b).0 ≡ s)
                  ⊎ ((serve D codec o s w p r b).0 ≡ swept s a w.now r.base)))
    unfolding serve
    serve_unauthenticated _ b tokens_behind = (_, refl, tokens-Barred b.chat)
    serve_unauthenticated _ b states_behind = (_, refl, states-Barred b.state)
    serve_unauthenticated _ b gateways_behind = (_, refl, gateways-Barred b.gateway)
    serve_unauthenticated _ b install_behind = (_, refl, install-Barred)

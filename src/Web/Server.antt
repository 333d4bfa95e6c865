-- ===== src/Web/Server.antt =====
-- internal/webterm/server.go: the server's parts, its requests and answers, and the handlers of the
-- console's login. A nil field is `none`. What the manager publishes stays in its `events`.
pub mod Gateways
pub mod States
pub mod Tokens
pub mod Sockets
pub mod Saved
pub mod Issued
pub mod Input
pub mod Isolation
mod Examples
use telegram_remote_terminal.Prelude.{
  ℕ, ℤ, ◌≡◌, ◌≢◌, refl, ap, inl, inr, Option-cases, Bool, true, false, List, Bytes, String, Option,
  none, some,
}
use telegram_remote_terminal.Events.{Bus}
use telegram_remote_terminal.Hub.{AgentHub}
use telegram_remote_terminal.Terminal.Manager.{Manager}
use telegram_remote_terminal.Dashboard.Database.{Database}
use telegram_remote_terminal.Dashboard.Store.{Draws, GatewayRecord}
use telegram_remote_terminal.Web.Tokens.{TokenStore}
use telegram_remote_terminal.Web.Auth.{
  ConsoleAuth, Method, get_method, Request, Response, session_info, login_done, logout_done,
  require_auth, handle_session, handle_login, handle_logout,
}

-- What a handler reads of the world: the clock, the random bytes, whether a statement of the
-- database succeeds and what it takes for the time, whether a shell starts and a write succeeds.
pub record World : Type 0 where
  pub now : ℕ
  pub token_bytes : Option Bytes
  pub draws : Draws
  pub db_works : Bool
  pub db_now : Bytes
  pub starts : Bool
  pub writes : Bool

-- A request with the parameters of its query and what the code reads of its headers.
pub record HttpRequest : Type 0 where
  pub base : Request
  pub agent_id : Bytes
  pub chat_id : Bytes
  pub profile_id : Bytes
  pub token : Bytes
  pub host : Bytes
  pub forwarded_host : Bytes

-- An answer: an HTTP error with its text and status, or what is encoded as JSON or as a page.
pub data Reply : Type 0 where
  refused : String → ℕ → Reply
  console : Response → Reply
  gateway_list : List GatewayRecord → Reply
  gateway_created : (agent_id token command : Bytes) → Reply
  gateway_renamed : Reply
  gateway_deleted : (agent_id : Bytes) → (uninstalled : Bool) → Reply
  install_command : (agent_id command : Bytes) → Reply
  ws_token : (chat : ℤ) → (agent_id token : Bytes) → (expires_at : ℕ) → Reply
  state_found : (profile_id payload : Bytes) → Reply
  state_missing : (profile_id : Bytes) → Reply
  state_saved : Reply
  dashboard_page : Reply
  terminal_page : (ws_url : Bytes) → Reply
  -- a nil pointer is used
  panicked : Reply

abbrev pub is_get : Method → Bool
is_get get_method = true
is_get _ = false

module _ (D : Database) where
  pub record Server : Type 0 where
    pub bus : Bus
    pub manager : Manager
    pub tokens : TokenStore
    pub store : Option D.Db
    pub auth : Option ConsoleAuth
    pub agent_hub : Option AgentHub

  -- `none` lets the request pass.
  abbrev require_of : Server → ConsoleAuth × Option Response → Server × Option Reply
  require_of s (a, none) = (record s { auth = some a }, none)
  require_of s (a, some r) = (record s { auth = some a }, some (console r))

  unfoldable pub require_console_auth : Server → ℕ → Request → Server × Option Reply
  unfolding require_auth
  require_console_auth s now r = elim s.auth [
    | none ↦ (s, none)
    | some a ↦ require_of s (require_auth a now r)
  ]

  abbrev answer_of : Server → ConsoleAuth × Response → Server × Reply
  answer_of s (a, r) = (record s { auth = some a }, console r)

  unfoldable pub handle_auth_session : Server → ℕ → Request → Server × Reply
  unfolding handle_session
  handle_auth_session s now r = elim s.auth [
    | none ↦
        (s, console (record { status = 200; body = session_info false true; set_cookie = none }))
    | some a ↦ answer_of s (handle_session a now r)
  ]

  module _ (check : Bytes → Bytes → Bool) (fold : Bytes → Bytes) where
    unfoldable pub handle_auth_login : Server → ℕ → Option Bytes → Request → Server × Reply
    unfolding handle_login
    handle_auth_login s now rand r = elim s.auth [
      | none ↦ (s, console (record { status = 200; body = login_done false; set_cookie = none }))
      | some a ↦ answer_of s (handle_login check fold a now rand r)
    ]

  unfoldable pub handle_auth_logout : (Bytes → Bytes) → Server → ℕ → Request → Server × Reply
  unfolding handle_logout
  handle_auth_logout fold s epoch r = elim s.auth [
    | none ↦ (s, console (record { status = 200; body = logout_done; set_cookie = none }))
    | some a ↦ answer_of s (handle_logout fold a epoch r)
  ]

  -- What every handler behind the login does after the check.
  abbrev pub guarded : Server × Option Reply → (Server → Server × Reply) → Server × Reply
  guarded (s, some reply) k = (s, reply)
  guarded (s, none) k = k s

  pub guarded-admitted :
      (p : Server × Option Reply) (k : Server → Server × Reply) → p.1 ≡ none → guarded p k ≡ k p.0
  guarded-admitted (s, none) k h = refl
  guarded-admitted (s, some reply) k h = cc

  passed :
      (s' : Server) (p : Server × Option Reply) (k : Server → Server × Reply) (reply : Reply)
      → ((r : Reply) → p.1 ≡ some r → r ≢ reply)
      → guarded p k ≡ (s', reply)
      → (p.1 ≡ none) × (k p.0 ≡ (s', reply))
  passed s' (s, none) k reply differs h = (refl, h)
  passed s' (s, some r) k reply differs h = elim (differs r refl (ap (λ y. y.1) h)) [ ]

  console_only :
      (x : Option Response) (a : ConsoleAuth) (s : Server) (r : Reply)
      → (require_of s (a, x)).1 ≡ some r
      → (c : Response) × (r ≡ console c)
  console_only none a s r h = cc
  console_only (some c) a s r h = (c, cc)

  refuses_with_console :
      (s : Server) (now : ℕ) (r : Request) (x : Reply)
      → (require_console_auth s now r).1 ≡ some x
      → (c : Response) × (x ≡ console c)
  unfolding require_console_auth
  refuses_with_console s now r x e = elim (Option-cases s.auth) [
    | inl missing ↦ cc (rw (missing, require_console_auth) at e)
    | inr (a, there) ↦
        console_only (require_auth a now r).1 (require_auth a now r).0 s x
          (rw (there, require_console_auth) at e)
  ]

  -- A handler that answers what the check of the login never answers has passed it.
  pub guarded-passed :
      (s s' : Server) (now : ℕ) (r : Request) (k : Server → Server × Reply) (reply : Reply)
      → ((c : Response) → console c ≢ reply)
      → guarded (require_console_auth s now r) k ≡ (s', reply)
      → ((require_console_auth s now r).1 ≡ none)
        × (k (require_console_auth s now r).0 ≡ (s', reply))
  guarded-passed s s' now r k reply differs =
      passed s' (require_console_auth s now r) k reply
        (λ x e. let (c, same) = refuses_with_console s now r x e in rw same (differs c))

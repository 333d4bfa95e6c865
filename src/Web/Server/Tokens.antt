-- ===== src/Web/Server/Tokens.antt =====
-- The handlers of internal/webterm/server.go for tokens and pages.
use telegram_remote_terminal.Prelude.{
  ℕ, ℤ, pos, Bool, true, false, not, ◌||◌, ◌++◌, Bytes, codes, Option, none, some, Result, ok, err,
  if◌then◌else◌, eq_ℤ,
}
use telegram_remote_terminal.Text.{trim_space, is_empty}
use telegram_remote_terminal.Text.Decimal.{parse_int64}
use telegram_remote_terminal.Hub.{AgentHub, has_agent}
use telegram_remote_terminal.Dashboard.Codec.{Aead}
use telegram_remote_terminal.Dashboard.Database.{Database}
use telegram_remote_terminal.Dashboard.Store.{StoreError, get_gateway_token}
use telegram_remote_terminal.Web.Auth.{is_post}
use telegram_remote_terminal.Web.Tokens.{TokenStore, issue_ws_token, use_page_token}
use telegram_remote_terminal.Web.Server.{
  World, HttpRequest, Reply, refused, ws_token, dashboard_page, terminal_page, panicked, Server,
  require_console_auth, guarded, is_get,
}

abbrev pub nonzero : Option ℤ → Option ℤ
nonzero none = none
nonzero (some z) = if eq_ℤ z (pos 0) then none else some z

-- `body` is the chat of a body that is decoded, which is 0 where it has none.
unfoldable pub parse_chat_id : HttpRequest → (body : Option ℤ) → Option ℤ
unfolding parse_int64
parse_chat_id r body =
    let raw = trim_space r.chat_id in
    if not (is_empty raw)
    then nonzero (parse_int64 raw)
    else if is_post r.base.method
    then nonzero body
    else none

abbrev pub ws_path : Bytes → Bytes
ws_path token = codes "/term/ws?token=" ++ token

module _ (D : Database) (codec : Option Aead) where
  abbrev pub is_stored : Result StoreError (Option Bytes) → Bool
  is_stored (err e) = false
  is_stored (ok none) = false
  is_stored (ok (some token)) = true

  -- The store is used without a test for nil.
  abbrev pub gateway_refusal : Option D.Db → AgentHub → World → Bytes → Option Reply
  gateway_refusal none h w agent_id = some panicked
  gateway_refusal (some d) h w agent_id =
      if not (is_stored (get_gateway_token D codec d w.db_works agent_id))
      then some (refused "gateway not found" 400)
      else if not (has_agent h agent_id)
      then some (refused "agent offline" 503)
      else none

  -- The questions about an agent before a token is issued for it; `none` is that all is well.
  abbrev pub agent_refusal : Option AgentHub → Option D.Db → World → Bytes → Option Reply
  agent_refusal none store w agent_id = some (refused "agent gateway disabled" 400)
  agent_refusal (some h) store w agent_id =
      if not h.enabled
      then some (refused "agent gateway disabled" 400)
      else gateway_refusal store h w agent_id

  abbrev pub issued : Server D → ℤ → Bytes → TokenStore × Option (Bytes × ℕ) → Server D × Reply
  issued s chat agent_id (tokens', none) =
      (record s { tokens = tokens' }, refused "issue token failed" 500)
  issued s chat agent_id (tokens', some (token, expires_at)) =
      (record s { tokens = tokens' }, ws_token chat agent_id token expires_at)

  abbrev pub issue_unless : Option Reply → Server D → World → ℤ → Bytes → Server D × Reply
  issue_unless (some reply) s w chat agent_id = (s, reply)
  issue_unless none s w chat agent_id =
      issued s chat agent_id (issue_ws_token s.tokens w.now w.token_bytes chat agent_id)

  -- `HandleIssueWSToken` behind the login.
  unfoldable pub issue_for : Server D → World → HttpRequest → Option ℤ → Server D × Reply
  unfolding parse_chat_id get_gateway_token has_agent issue_ws_token
  issue_for s w r body =
      let agent_id = trim_space r.agent_id in
      elim (parse_chat_id r body) [
        | none ↦ (s, refused "invalid chat_id" 400)
        | some chat ↦
            issue_unless
              (if is_empty agent_id then none else agent_refusal s.agent_hub s.store w agent_id) s w
              chat agent_id
      ]

  unfoldable pub handle_issue_ws_token :
      Server D → World → HttpRequest → Option ℤ → Server D × Reply
  unfolding require_console_auth issue_for
  handle_issue_ws_token s w r body =
      if not (is_post r.base.method || is_get r.base.method)
      then (s, refused "method not allowed" 405)
      else guarded D (require_console_auth D s w.now r.base) (λ s'. issue_for s' w r body)

-- The pages are files that the program embeds; `readable` is whether the file is there.
module _ (D : Database) (readable : Bool) where
  unfoldable pub handle_dashboard : Server D → HttpRequest → Server D × Reply
  handle_dashboard s r =
      if not (is_get r.base.method)
      then (s, refused "method not allowed" 405)
      else if readable
      then (s, dashboard_page)
      else (s, refused "page not available" 500)

  abbrev page_reply : Server D → TokenStore × Option (Bytes × ℤ) → Server D × Reply
  page_reply s (tokens', none) =
      (record s { tokens = tokens' }, refused "invalid or expired token" 403)
  page_reply s (tokens', some (ws, chat)) =
      if readable
      then (record s { tokens = tokens' }, terminal_page (ws_path ws))
      else (record s { tokens = tokens' }, refused "page not available" 500)

  unfoldable pub handle_page : Server D → World → HttpRequest → Server D × Reply
  unfolding use_page_token
  handle_page s w r =
      let token = trim_space r.token in
      if is_empty token
      then (s, refused "missing token" 400)
      else page_reply s (use_page_token s.tokens w.now w.token_bytes token)

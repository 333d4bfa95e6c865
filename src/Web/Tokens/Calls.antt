-- ===== src/Web/Tokens/Calls.antt =====
-- Histories of the calls of internal/webterm/tokens.go, and the calls that a token comes from.
use telegram_remote_terminal.Prelude.{
  ℕ, ℤ, ◌≡◌, ◌⊎◌, List, [], ◌∷◌, Bytes, Option, some, add_time, bytes_key, Any,
}
use telegram_remote_terminal.Web.Random.{new_token}
use telegram_remote_terminal.Web.Tokens.{
  TokenStore, new_token_store, issue, issue_ws_token, use_page_token, resolve_ws_token,
  cleanup_expired,
}

pub data Call : Type 0 where
  issues : ℕ → Option Bytes → ℤ → Call
  issues_ws : ℕ → Option Bytes → ℤ → Bytes → Call
  uses : ℕ → Option Bytes → Bytes → Call
  resolves : ℕ → Bytes → Call
  cleans : ℕ → Call

unfoldable pub step : TokenStore → Call → TokenStore
step s (issues now rand chat) = (issue s now rand chat).0
step s (issues_ws now rand chat agent) = (issue_ws_token s now rand chat agent).0
step s (uses now rand t) = (use_page_token s now rand t).0
step s (resolves now t) = (resolve_ws_token s now t).0
step s (cleans now) = cleanup_expired s now

-- The latest call stands first.
unfoldable pub run : ℤ → List Call → TokenStore
run ttl [] = new_token_store ttl
run ttl (c ∷ past) = step (run ttl past) c

module _ (ttl : ℤ) where
  -- The call handed out the socket token `t`.
  abbrev pub GrantsWs : Bytes → ℤ → Bytes → ℕ → Call → Type 0
  GrantsWs t chat agent expires (issues_ws now rand c a) =
      (new_token rand ≡ some t) × (c ≡ chat) × (a ≡ agent) × (add_time now ttl ≡ expires)
  GrantsWs t chat agent expires _ = ⊥

  -- The call handed out the page token `p`.
  abbrev pub GrantsPage : Bytes → ℤ → ℕ → Call → Type 0
  GrantsPage p chat expires (issues now rand c) =
      (new_token rand ≡ some p) × (c ≡ chat) × (add_time now ttl ≡ expires)
  GrantsPage p chat expires _ = ⊥

-- The call used the page token `p` and drew `t` for it.
abbrev pub Mints : Bytes → Bytes → Call → Type 0
Mints p t (uses now rand q) = (q ≡ p) × (new_token rand ≡ some t)
Mints p t _ = ⊥

-- `t` was handed out for the chat and the agent, or drawn for a page token of that chat.
abbrev pub WsOrigin : ℤ → List Call → Bytes → ℤ → Bytes → ℕ → Type 0
WsOrigin ttl calls t chat agent expires =
    Any (GrantsWs ttl t chat agent expires) calls
    ⊎ ((p : Bytes) × (agent ≡ [])
        × Any (Mints p t) calls
        × Any (GrantsPage ttl p chat expires) calls)

-- ===== src/Web/Tokens.antt =====
-- internal/webterm/tokens.go. The clock and the random bytes that a method reads are arguments; a
-- method that locks `mu` is one step on the store. `(v, ok)` results are options.
pub mod Exchange
pub mod Calls
pub mod Origins
pub mod History
mod Examples
use telegram_remote_terminal.Prelude.{
  ℕ, ℤ, pos, Bool, true, false, [], Bytes, Option, none, some, Map, lookup, insert, remove, retain,
  nonpos, add_time, ltb, if◌then◌else◌, not, bytes_key, ◌*◌, Option-cases, Bool-cases, inl, inr,
  ◌≡◌,
}
use telegram_remote_terminal.Text.{is_empty}
use telegram_remote_terminal.Web.Random.{new_token}

pub record TokenEntry : Type 0 where
  pub chat_id : ℤ
  pub agent_id : Bytes
  pub expires_at : ℕ
  pub used : Bool
  pub ws_token : Bytes

pub record TokenStore : Type 0 where
  pub page_tokens : Map Bytes TokenEntry
  pub ws_tokens : Map Bytes TokenEntry
  pub ttl : ℤ

-- five minutes, in nanoseconds
abbrev pub default_ttl : ℤ
default_ttl = pos (300 * 1_000_000_000)

unfoldable pub new_token_store : ℤ → TokenStore
new_token_store ttl = record {
  page_tokens = [];
  ws_tokens = [];
  ttl = if nonpos ttl then default_ttl else ttl;
}

abbrev page_entry : ℤ → ℕ → TokenEntry
page_entry chat_id expires_at = record {
  chat_id = chat_id;
  agent_id = [];
  expires_at = expires_at;
  used = false;
  ws_token = [];
}

abbrev ws_entry : ℤ → Bytes → ℕ → TokenEntry
ws_entry chat_id agent_id expires_at = record {
  chat_id = chat_id;
  agent_id = agent_id;
  expires_at = expires_at;
  used = false;
  ws_token = [];
}

unfoldable pub issue : TokenStore → ℕ → Option Bytes → ℤ → TokenStore × Option Bytes
issue s now rand chat_id = elim (new_token rand) [
  | none ↦ (s, none)
  | some token ↦
      let entry = page_entry chat_id (add_time now s.ttl) in
      (record s { page_tokens = insert token entry s.page_tokens }, some token)
]

unfoldable pub issue_ws_token :
    TokenStore → ℕ → Option Bytes → ℤ → Bytes → TokenStore × Option (Bytes × ℕ)
issue_ws_token s now rand chat_id agent_id = elim (new_token rand) [
  | none ↦ (s, none)
  | some token ↦
      let expires_at = add_time now s.ttl in
      let entry = ws_entry chat_id agent_id expires_at in
      (record s { ws_tokens = insert token entry s.ws_tokens }, some (token, expires_at))
]

-- `now.After(entry.expiresAt)`
abbrev pub expired : ℕ → TokenEntry → Bool
expired now entry = ltb entry.expires_at now

abbrev minted : TokenStore → Bytes → TokenEntry → Bytes → TokenStore
minted s token entry ws = record s {
  page_tokens = insert token (record entry { used = true; ws_token = ws }) s.page_tokens;
  ws_tokens = insert ws (ws_entry entry.chat_id entry.agent_id entry.expires_at) s.ws_tokens;
}

-- The first use of a page token, which draws the token for the socket.
mint : TokenStore → Bytes → TokenEntry → Option Bytes → TokenStore × Option (Bytes × ℤ)
mint s token entry none = (s, none)
mint s token entry (some ws) = (minted s token entry ws, some (ws, entry.chat_id))

unfoldable pub use_page_token :
    TokenStore → ℕ → Option Bytes → Bytes → TokenStore × Option (Bytes × ℤ)
unfolding mint
use_page_token s now rand token = elim (lookup token s.page_tokens) [
  | none ↦ (s, none)
  | some entry ↦
      if expired now entry
      then (record s { page_tokens = remove token s.page_tokens }, none)
      else if entry.used
      then (s, if is_empty entry.ws_token then none else some (entry.ws_token, entry.chat_id))
      else mint s token entry (new_token rand)
]

unfoldable pub resolve_ws_token : TokenStore → ℕ → Bytes → TokenStore × Option (ℤ × Bytes)
resolve_ws_token s now token = elim (lookup token s.ws_tokens) [
  | none ↦ (s, none)
  | some entry ↦
      if expired now entry
      then (record s { ws_tokens = remove token s.ws_tokens }, none)
      else (s, some (entry.chat_id, entry.agent_id))
]

unfoldable pub cleanup_expired : TokenStore → ℕ → TokenStore
cleanup_expired s now = record s {
  page_tokens = retain (λ entry. not (expired now entry)) s.page_tokens;
  ws_tokens = retain (λ entry. not (expired now entry)) s.ws_tokens;
}

-- The states that `use_page_token` can leave behind.
use_page_token_cases :
    (P : TokenStore → Type 0) (s : TokenStore) (now : ℕ) (rand : Option Bytes) (token : Bytes)
    → P s
    → P (record s { page_tokens = remove token s.page_tokens })
    → ((entry : TokenEntry) (ws : Bytes)
        → lookup token s.page_tokens ≡ some entry
        → new_token rand ≡ some ws
        → P (minted s token entry ws))
    → P (use_page_token s now rand token).0
unfolding use_page_token
use_page_token_cases P s now rand token same dropped fresh =
    elim (Option-cases (lookup token s.page_tokens)) [
      | inl missing ↦ rw (missing, use_page_token) same
      | inr (entry, found) ↦
          rw (found, use_page_token)
            (elim (Bool-cases (expired now entry)) [
              | inl late ↦ rw late dropped
              | inr timely ↦ rw timely (elim (Bool-cases entry.used) [
                | inl again ↦ rw again same
                | inr first ↦ rw first (elim (Option-cases (new_token rand)) [
                  | inl failed ↦ rw (failed, mint) same
                  | inr (ws, drawn) ↦ rw (drawn, mint) (fresh entry ws found drawn)
                ])
              ])
            ])
    ]

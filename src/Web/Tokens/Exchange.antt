-- ===== src/Web/Tokens/Exchange.antt =====
-- What a token is good for, from the moment it is handed out: tokens.go, operation by operation.
use telegram_remote_terminal.Prelude.{
  ℕ, ℤ, ap, sym, ◌∙◌, ◌≤◌, ◌≡◌, ◌≢◌, refl, true, false, [], Bytes, Option, none, some, arith, IsMap,
  leb, lookup, insert, lookup-insert_self, lookup-retain, if◌then◌else◌, add_time, bytes_key, not,
  Option-cases, Bool-cases, inl, inr,
}
use telegram_remote_terminal.Web.Random.{new_token, hex_encode-ne-nil}
use telegram_remote_terminal.Web.Tokens.{
  TokenEntry, TokenStore, expired, issue, issue_ws_token, use_page_token, resolve_ws_token,
  cleanup_expired, minted, page_entry,
}

pub new_token-ne-nil : (buf ws : Bytes) → buf ≢ [] → new_token (some buf) ≡ some ws → ws ≢ []
unfolding new_token
new_token-ne-nil buf ws h e = ground (arith, hex_encode-ne-nil buf h)

-- A socket token that was just issued from a draw resolves to its chat and its agent exactly until
-- it expires.
pub resolve-issue_ws_token :
    (s : TokenStore) (now later : ℕ) (rand : Option Bytes) (chat : ℤ) (agent t : Bytes)
    → new_token rand ≡ some t
    → (resolve_ws_token (issue_ws_token s now rand chat agent).0 later t).1
      ≡ (if leb later (add_time now s.ttl) then some (chat, agent) else none)
unfolding issue_ws_token resolve_ws_token
resolve-issue_ws_token s now later rand chat agent t e =
    rw (e, issue_ws_token, resolve_ws_token, lookup-insert_self) (ground arith)

issue_drawn :
    (s : TokenStore) (now : ℕ) (rand : Option Bytes) (chat : ℤ) (t : Bytes)
    → new_token rand ≡ some t
    → (issue s now rand chat).0
      ≡ record s { page_tokens = insert t (page_entry chat (add_time now s.ttl)) s.page_tokens }
unfolding issue
issue_drawn s now rand chat t e = rw (e, issue)

use_fresh :
    (s : TokenStore) (now : ℕ) (rand : Option Bytes) (t w : Bytes) (e : TokenEntry)
    → lookup t s.page_tokens ≡ some e
    → now ≤ e.expires_at
    → e.used ≡ false
    → new_token rand ≡ some w
    → use_page_token s now rand t ≡ (minted s t e w, some (w, e.chat_id))
unfolding use_page_token
use_fresh s now rand t w e found timely first drawn =
    rw (found, use_page_token, drawn) (ground arith)

use_again :
    (s : TokenStore) (now : ℕ) (rand : Option Bytes) (t : Bytes) (e : TokenEntry)
    → lookup t s.page_tokens ≡ some e
    → now ≤ e.expires_at
    → e.used ≡ true
    → e.ws_token ≢ []
    → use_page_token s now rand t ≡ (s, some (e.ws_token, e.chat_id))
unfolding use_page_token
use_again s now rand t e found timely again some_ws = rw (found, use_page_token) (ground arith)

use_timely :
    (s : TokenStore) (now : ℕ) (rand : Option Bytes) (t w : Bytes) (chat : ℤ) (e : TokenEntry)
    → lookup t s.page_tokens ≡ some e
    → (use_page_token s now rand t).1 ≡ some (w, chat)
    → now ≤ e.expires_at
unfolding use_page_token
use_timely s now rand t w chat e found given = ground (arith, Option-cases (new_token rand))

use_given :
    (s : TokenStore) (now : ℕ) (rand : Option Bytes) (t w : Bytes) (chat : ℤ) (e : TokenEntry)
    → lookup t s.page_tokens ≡ some e
    → e.used ≡ true
    → (use_page_token s now rand t).1 ≡ some (w, chat)
    → (use_page_token s now rand t ≡ (s, some (w, chat)))
      × (e.ws_token ≢ [])
      × (◌≡◌ {A = Option (Bytes × ℤ)} (some (e.ws_token, e.chat_id)) (some (w, chat)))
unfolding use_page_token
use_given s now rand t w chat e found again given = (ground arith, ground arith, ground arith)

use_fails :
    (s : TokenStore) (now : ℕ) (rand : Option Bytes) (t w : Bytes) (chat : ℤ) (e : TokenEntry)
    → lookup t s.page_tokens ≡ some e
    → e.used ≡ false
    → new_token rand ≡ none
    → (use_page_token s now rand t).1 ≢ some (w, chat)
unfolding use_page_token
use_fails s now rand t w chat e found first failed given = ground (arith, failed)

-- A page token that was just issued, used in time with a random draw, gives a socket token which
-- resolves to the chat, without an agent, exactly until the page token expires.
pub resolve-use_page_token :
    (s : TokenStore) (now use_at later : ℕ) (rand rand' : Option Bytes) (chat : ℤ) (t w : Bytes)
    → new_token rand ≡ some t
    → new_token rand' ≡ some w
    → use_at ≤ add_time now s.ttl
    → let used = use_page_token (issue s now rand chat).0 use_at rand' t in
      (used.1 ≡ some (w, chat))
      × ((resolve_ws_token used.0 later w).1
          ≡ (if leb later (add_time now s.ttl) then some (chat, []) else none))
resolve-use_page_token s now use_at later rand rand' chat t w e e' h =
    rw
      (
        issue_drawn s now rand chat t e,
        use_fresh
            (record s {
              page_tokens = insert t (page_entry chat (add_time now s.ttl)) s.page_tokens;
            })
            use_at rand' t w (page_entry chat (add_time now s.ttl))
            (lookup-insert_self t _ s.page_tokens) h refl e',
      )
      (refl, unfold resolve_ws_token in rw (resolve_ws_token, lookup-insert_self) (ground arith))

-- Once a page token gave a socket token, from a draw that is not empty, it gives the same one again
-- until it expires, whatever the random source does then, and the store stays as it is.
pub use_page_token_again :
    (s : TokenStore) (now later : ℕ) (buf : Bytes) (rand : Option Bytes) (t w : Bytes) (chat : ℤ)
    (e : TokenEntry)
    → buf ≢ []
    → lookup t s.page_tokens ≡ some e
    → later ≤ e.expires_at
    → (use_page_token s now (some buf) t).1 ≡ some (w, chat)
    → let s' = (use_page_token s now (some buf) t).0 in
      use_page_token s' later rand t ≡ (s', some (w, chat))
use_page_token_again s now later buf rand t w chat e nonempty found fresh given =
    elim (Bool-cases e.used) [
      | inl again ↦
          let (same, some_ws, answer) = use_given s now (some buf) t w chat e found again given in
          let next = use_again s later rand t e found fresh again some_ws in
          rw same (next ∙ ap (λ o. (s, o)) answer)
      | inr first ↦ elim (Option-cases (new_token (some buf))) [
        | inl failed ↦ absurd (use_fails s now (some buf) t w chat e found first failed given)
        | inr (w', drawn) ↦
            let timely = use_timely s now (some buf) t w chat e found given in
            let step = use_fresh s now (some buf) t w' e found timely first drawn in
            rw step (
              use_again (minted s t e w') later rand t (record e { used = true; ws_token = w' })
                (lookup-insert_self t _ s.page_tokens) fresh refl
                (new_token-ne-nil buf w' nonempty drawn)
              ∙ ap (λ o. (minted s t e w', o))
                  (sym (ap (λ (r : TokenStore × Option (Bytes × ℤ)). r.1) step) ∙ given))
      ]
    ]

-- In a store that has no socket token twice, the sweep does not change what `ResolveWSToken` answers
-- from that moment on.
pub resolve-cleanup_expired :
    (s : TokenStore) (now later : ℕ) (t : Bytes)
    → IsMap s.ws_tokens
    → now ≤ later
    → (resolve_ws_token (cleanup_expired s now) later t).1 ≡ (resolve_ws_token s later t).1
unfolding cleanup_expired resolve_ws_token
resolve-cleanup_expired s now later t u h =
    ground (arith, lookup-retain (λ (entry : TokenEntry). not (expired now entry)) t s.ws_tokens u)

-- In a store that has no page token twice, the sweep does not change what `UsePageToken` answers from
-- that moment on.
pub use_page_token-cleanup_expired :
    (s : TokenStore) (now later : ℕ) (rand : Option Bytes) (t : Bytes)
    → IsMap s.page_tokens
    → now ≤ later
    → (use_page_token (cleanup_expired s now) later rand t).1 ≡ (use_page_token s later rand t).1
unfolding cleanup_expired use_page_token
use_page_token-cleanup_expired s now later rand t u h = ground (
  arith,
  lookup-retain (λ (entry : TokenEntry). not (expired now entry)) t s.page_tokens u,
  Option-cases (new_token rand),
)

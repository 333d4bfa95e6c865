-- ===== src/Web/Tokens/History.antt =====
-- Where the tokens that the store accepts come from, over any history of calls.
use telegram_remote_terminal.Prelude.{
  ℕ, ℤ, ◌≤◌, ◌≡◌, refl, inl, inr, List, [], ◌∷◌, Bytes, some, arith, subst₂, ◌≤◌, lookup, bytes_key,
  Option-cases, nonpos, if◌then◌else◌,
}
use telegram_remote_terminal.Web.Tokens.{
  TokenEntry, TokenStore, new_token_store, resolve_ws_token, default_ttl,
}
use telegram_remote_terminal.Web.Tokens.Calls.{Call, run, WsOrigin}
use telegram_remote_terminal.Web.Tokens.Origins.{Inv, step-Inv}

abbrev pub effective : ℤ → ℤ
effective ttl = if nonpos ttl then default_ttl else ttl

run-Inv : (ttl : ℤ) (calls : List Call) → Inv (effective ttl) calls (run ttl calls)
unfolding run new_token_store lookup
run-Inv ttl [] = record {
  ttl_kept = refl;
  pages_map = tt;
  ws_map = tt;
  pages = λ p e q. cc;
  sockets = λ t e q. cc;
}
run-Inv ttl (c ∷ past) = step-Inv (effective ttl) c past (run ttl past) (run-Inv ttl past)

resolve_found :
    (s : TokenStore) (now : ℕ) (t : Bytes) (chat : ℤ) (agent : Bytes)
    → (resolve_ws_token s now t).1 ≡ some (chat, agent)
    → (e : TokenEntry) × (lookup t s.ws_tokens ≡ some e)
      × (now ≤ e.expires_at)
      × (e.chat_id ≡ chat)
      × (e.agent_id ≡ agent)
unfolding resolve_ws_token
resolve_found s now t chat agent h = elim (Option-cases (lookup t s.ws_tokens)) [
  | inl missing ↦ absurd (ground (arith, missing, h))
  | inr (e, found) ↦ (e, found, ground arith, ground arith, ground arith)
]

-- A socket token that resolves after any history of calls was handed out for that very chat and
-- agent, or was drawn for a page token of that chat and then has no agent; and the time to live,
-- counted from the call that handed out the socket token or the page token, has not run out.
pub resolve-has-origin :
    (ttl : ℤ) (calls : List Call) (now : ℕ) (t : Bytes) (chat : ℤ) (agent : Bytes)
    → (resolve_ws_token (run ttl calls) now t).1 ≡ some (chat, agent)
    → (expires : ℕ) × (now ≤ expires) × WsOrigin (effective ttl) calls t chat agent expires
resolve-has-origin ttl calls now t chat agent h =
    let (e, found, timely, c, a) = resolve_found (run ttl calls) now t chat agent h in
    (
      e.expires_at,
      timely,
      subst₂ (λ x y. WsOrigin (effective ttl) calls t x y e.expires_at) c a
          ((run-Inv ttl calls).sockets t e found),
    )

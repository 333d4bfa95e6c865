-- ===== src/Web/Tokens/Origins.antt =====
-- What the calls of internal/webterm/tokens.go keep: every token in the store comes from a call.
use telegram_remote_terminal.Prelude.{
  ℕ, ℤ, ◌≡◌, refl, ◌∙◌, ◌⊎◌, inl, inr, List, [], ◌∷◌, Bytes, Option, some, subst, IsMap, lookup,
  insert-IsMap, remove-IsMap, retain-IsMap, lookup-insert_cases, lookup-remove-some,
  lookup-retain-some, bytes_key, sym, ap, Any, Option-cases, Bool-cases,
}
use telegram_remote_terminal.Web.Random.{new_token}
use telegram_remote_terminal.Web.Tokens.{
  TokenEntry, TokenStore, expired, issue, issue_ws_token, use_page_token, resolve_ws_token,
  cleanup_expired, use_page_token_cases,
}
use telegram_remote_terminal.Web.Tokens.Calls.{Call, step, WsOrigin}
use telegram_remote_terminal.Web.Tokens.Calls.{
  Call, issues, issues_ws, uses, resolves, cleans, step, GrantsPage, WsOrigin,
}

-- `ttl` is the one that the constructor chose.
pub record Inv (ttl : ℤ) (calls : List Call) (s : TokenStore) : Type 0 where
  pub ttl_kept : s.ttl ≡ ttl
  pub pages_map : IsMap s.page_tokens
  pub ws_map : IsMap s.ws_tokens
  pub pages :
      (p : Bytes) (e : TokenEntry)
      → lookup p s.page_tokens ≡ some e
      → Any (GrantsPage ttl p e.chat_id e.expires_at) calls × (e.agent_id ≡ [])
  pub sockets :
      (t : Bytes) (e : TokenEntry)
      → lookup t s.ws_tokens ≡ some e
      → WsOrigin ttl calls t e.chat_id e.agent_id e.expires_at

module _ (ttl : ℤ) where
  WsOrigin-later :
      (c : Call) (past : List Call) (t : Bytes) (chat : ℤ) (agent : Bytes) (expires : ℕ)
      → WsOrigin ttl past t chat agent expires
      → WsOrigin ttl (c ∷ past) t chat agent expires
  WsOrigin-later c past t chat agent expires (inl h) = inl (inr h)
  WsOrigin-later c past t chat agent expires (inr (p, a, m, g)) = inr (p, a, inr m, inr g)

  -- A call keeps the invariant if each entry after it was there before it or has an origin.
  keep-Inv :
      (c : Call) (past : List Call) (s s' : TokenStore)
      → Inv ttl past s
      → s'.ttl ≡ s.ttl
      → IsMap s'.page_tokens
      → IsMap s'.ws_tokens
      → ((p : Bytes) (e : TokenEntry)
          → lookup p s'.page_tokens ≡ some e
          → (lookup p s.page_tokens ≡ some e)
            ⊎ (Any (GrantsPage ttl p e.chat_id e.expires_at) (c ∷ past) × (e.agent_id ≡ [])))
      → ((t : Bytes) (e : TokenEntry)
          → lookup t s'.ws_tokens ≡ some e
          → (lookup t s.ws_tokens ≡ some e)
            ⊎ WsOrigin ttl (c ∷ past) t e.chat_id e.agent_id e.expires_at)
      → Inv ttl (c ∷ past) s'
  keep-Inv c past s s' h same pm wm ps ws = record {
    ttl_kept = same ∙ h.ttl_kept;
    pages_map = pm;
    ws_map = wm;
    pages = λ p e q. elim (ps p e q) [
      | inl old ↦ let (g, a) = h.pages p e old in (inr g, a)
      | inr new ↦ new
    ];
    sockets = λ t e q. elim (ws t e q) [
      | inl old ↦ WsOrigin-later c past t e.chat_id e.agent_id e.expires_at (h.sockets t e old)
      | inr new ↦ new
    ];
  }

  unchanged-Inv :
      (c : Call) (past : List Call) (s : TokenStore) → Inv ttl past s → Inv ttl (c ∷ past) s
  unchanged-Inv c past s h =
      keep-Inv c past s s h refl h.pages_map h.ws_map (λ p e q. inl q) (λ t e q. inl q)

  issue-Inv :
      (past : List Call) (s : TokenStore) (now : ℕ) (rand : Option Bytes) (chat : ℤ)
      → Inv ttl past s
      → Inv ttl (issues now rand chat ∷ past) (issue s now rand chat).0
  unfolding issue
  issue-Inv past s now rand chat h = elim (Option-cases (new_token rand)) [
    | inl failed ↦ rw (failed, issue) (unchanged-Inv (issues now rand chat) past s h)
    | inr (t, drawn) ↦
        rw (drawn, issue)
          (keep-Inv (issues now rand chat) past s _ h refl (insert-IsMap t _ _ h.pages_map) h.ws_map
            (λ p e q. elim (lookup-insert_cases t p _ e s.page_tokens q) [
              | inl (same, new) ↦ inr (
                inl (
                  rw (← same) drawn,
                  ap (λ (x : TokenEntry). x.chat_id) new,
                  rw (← h.ttl_kept) (ap (λ (x : TokenEntry). x.expires_at) new),
                ),
                sym (ap (λ (x : TokenEntry). x.agent_id) new),
              )
              | inr old ↦ inl old
            ])
            (λ t' e q. inl q))
  ]

  issue_ws-Inv :
      (past : List Call) (s : TokenStore) (now : ℕ) (rand : Option Bytes) (chat : ℤ) (agent : Bytes)
      → Inv ttl past s
      → Inv ttl (issues_ws now rand chat agent ∷ past) (issue_ws_token s now rand chat agent).0
  unfolding issue_ws_token
  issue_ws-Inv past s now rand chat agent h = elim (Option-cases (new_token rand)) [
    | inl failed ↦
        rw (failed, issue_ws_token) (unchanged-Inv (issues_ws now rand chat agent) past s h)
    | inr (t, drawn) ↦
        rw (drawn, issue_ws_token)
          (keep-Inv (issues_ws now rand chat agent) past s _ h refl h.pages_map
            (insert-IsMap t _ _ h.ws_map) (λ p e q. inl q)
            (λ t' e q. elim (lookup-insert_cases t t' _ e s.ws_tokens q) [
              | inl (same, new) ↦ inr (
                  inl (
                    inl (
                      rw (← same) drawn,
                      ap (λ (x : TokenEntry). x.chat_id) new,
                      ap (λ (x : TokenEntry). x.agent_id) new,
                      rw (← h.ttl_kept) (ap (λ (x : TokenEntry). x.expires_at) new),
                    )))
              | inr old ↦ inl old
            ]))
  ]

  uses-Inv :
      (past : List Call) (s : TokenStore) (now : ℕ) (rand : Option Bytes) (t : Bytes)
      → Inv ttl past s
      → Inv ttl (uses now rand t ∷ past) (use_page_token s now rand t).0
  uses-Inv past s now rand t h =
      use_page_token_cases (Inv ttl (uses now rand t ∷ past)) s now rand t
        (unchanged-Inv (uses now rand t) past s h)
        (keep-Inv (uses now rand t) past s _ h refl (remove-IsMap t _ h.pages_map) h.ws_map
          (λ p e q. inl (lookup-remove-some t p e _ q)) (λ t' e q. inl q))
        λ entry ws found drawn.
          let (granted, bare) = h.pages t entry found in
          keep-Inv (uses now rand t) past s _ h refl (insert-IsMap t _ _ h.pages_map)
            (insert-IsMap ws _ _ h.ws_map)
            (λ p e q. elim (lookup-insert_cases t p _ e s.page_tokens q) [
              | inl (same, new) ↦ inr (
                  subst
                    (λ (x : TokenEntry).
                      Any (GrantsPage ttl p x.chat_id x.expires_at) (uses now rand t ∷ past)
                      × (x.agent_id ≡ []))
                    new
                    (
                      inr (
                          subst (λ x. Any (GrantsPage ttl x entry.chat_id entry.expires_at) past)
                            same granted),
                      bare,
                    ))
              | inr old ↦ inl old
            ])
            (λ t' e q. elim (lookup-insert_cases ws t' _ e s.ws_tokens q) [
              | inl (same, new) ↦ inr (
                  subst
                    (λ (x : TokenEntry).
                      WsOrigin ttl (uses now rand t ∷ past) t' x.chat_id x.agent_id x.expires_at)
                    new
                    (subst
                      (λ x.
                        WsOrigin ttl (uses now rand t ∷ past) x entry.chat_id entry.agent_id
                          entry.expires_at)
                      same (inr (t, bare, inl (refl, drawn), inr granted))))
              | inr old ↦ inl old
            ])

  resolves-Inv :
      (past : List Call) (s : TokenStore) (now : ℕ) (t : Bytes)
      → Inv ttl past s
      → Inv ttl (resolves now t ∷ past) (resolve_ws_token s now t).0
  unfolding resolve_ws_token
  resolves-Inv past s now t h = elim (Option-cases (lookup t s.ws_tokens)) [
    | inl missing ↦ rw (missing, resolve_ws_token) (unchanged-Inv (resolves now t) past s h)
    | inr (e, found) ↦
        rw (found, resolve_ws_token)
          (elim (Bool-cases (expired now e)) [
            | inl late ↦ rw late (
                keep-Inv (resolves now t) past s _ h refl h.pages_map (remove-IsMap t _ h.ws_map)
                  (λ p e' q. inl q) (λ t' e' q. inl (lookup-remove-some t t' e' _ q)))
            | inr timely ↦ rw timely (unchanged-Inv (resolves now t) past s h)
          ])
  ]

  cleans-Inv :
      (past : List Call) (s : TokenStore) (now : ℕ)
      → Inv ttl past s
      → Inv ttl (cleans now ∷ past) (cleanup_expired s now)
  unfolding cleanup_expired
  cleans-Inv past s now h =
      keep-Inv (cleans now) past s _ h refl (retain-IsMap _ _ h.pages_map)
        (retain-IsMap _ _ h.ws_map) (λ p e q. inl (lookup-retain-some _ p e _ h.pages_map q).0)
        (λ t e q. inl (lookup-retain-some _ t e _ h.ws_map q).0)

  pub step-Inv :
      (c : Call) (past : List Call) (s : TokenStore)
      → Inv ttl past s
      → Inv ttl (c ∷ past) (step s c)
  unfolding step
  step-Inv (issues now rand chat) past s h = issue-Inv past s now rand chat h
  step-Inv (issues_ws now rand chat agent) past s h = issue_ws-Inv past s now rand chat agent h
  step-Inv (uses now rand t) past s h = uses-Inv past s now rand t h
  step-Inv (resolves now t) past s h = resolves-Inv past s now t h
  step-Inv (cleans now) past s h = cleans-Inv past s now h

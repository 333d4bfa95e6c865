-- ===== src/Hub/Joins.antt =====
-- The hub of internal/agent/hub.go after an agent has joined it.
use telegram_remote_terminal.Prelude.{
  ℕ, suc, ◌==◌, ==_iff, ◌⊎◌, Bool-cases, [], ◌∷◌, inl, inr, lookup, insert, lookup-insert,
  lookup-insert_self, bytes_key, nat_key, Option-cases, if◌then◌else◌, eq_bytes, ◌≡◌, refl, ◌∙◌, ap,
  true, false, Bytes, Option, none, some, if_false,
}
use telegram_remote_terminal.Hub.{AgentHub, AgentConn, join, close_conn, close_old, connected}

close_conn_rest :
    (c : ℕ) (h : AgentHub) → close_conn c h ≡ record h { conns = (close_conn c h).conns }
unfolding close_conn
close_conn_rest c h = elim (Option-cases (lookup c h.conns)) [
  | inl gone ↦ rw (gone, close_conn) refl
  | inr (a, there) ↦ rw (there, close_conn) refl
]

close_old_rest :
    (o : Option ℕ) (h : AgentHub) → close_old o h ≡ record h { conns = (close_old o h).conns }
close_old_rest none h = refl
close_old_rest (some c) h = close_conn_rest c h

-- The hub that an agent has joined: its connection is new and open, and only the one that it replaces
-- is not as it was.
pub record HasJoined (id : Bytes) (h h' : AgentHub) : Type 0 where
  pub rest : h' ≡ record h {
    agents = h'.agents;
    conns = h'.conns;
    next = suc h.next;
    notices = connected id ∷ h.notices;
  }
  pub agents :
      (i : Bytes) → lookup i h'.agents ≡ (if eq_bytes id i then some h.next else lookup i h.agents)
  pub conn :
      lookup h.next h'.conns
      ≡ some (record { refs = []; sent = []; closed = false; failed = false })
  pub others :
      (c : ℕ)
      → (h.next ≡ c) ⊎ (lookup id h.agents ≡ some c) ⊎ (lookup c h'.conns ≡ lookup c h.conns)

close_conn_other :
    (c c' : ℕ) (h : AgentHub)
    → c == c' ≡ false
    → lookup c' (close_conn c h).conns ≡ lookup c' h.conns
unfolding close_conn
close_conn_other c c' h other = elim (Option-cases (lookup c h.conns)) [
  | inl gone ↦ rw (gone, close_conn) refl
  | inr (a, there) ↦
      rw (there, close_conn)
        (lookup-insert c c' (record a { closed = true }) h.conns ∙ if_false (c == c') _ _ other)
]

close_old_other :
    (o : Option ℕ) (h : AgentHub) (c : ℕ)
    → (o ≡ some c) ⊎ (lookup c (close_old o h).conns ≡ lookup c h.conns)
close_old_other none h c = inr refl
close_old_other (some k) h c = elim (Bool-cases (k == c)) [
  | inl same ↦ inl (ap some ((==_iff k c).0 same))
  | inr other ↦ inr (close_conn_other k c h other)
]

pub join-HasJoined : (h : AgentHub) (id : Bytes) → HasJoined id h (join h id).0
unfolding join
join-HasJoined h id =
    let h1 = close_old (lookup id h.agents) h in
    let e = close_old_rest (lookup id h.agents) h in
    let fresh : AgentConn = record { refs = []; sent = []; closed = false; failed = false } in
    record {
      rest =
          ap
            (λ (x : AgentHub). record x {
              agents = insert id h.next h1.agents;
              conns = insert h.next fresh h1.conns;
              next = suc h.next;
              notices = connected id ∷ x.notices;
            })
            e;
      agents = λ i.
          lookup-insert id i h.next h1.agents
          ∙ ap (λ (x : AgentHub). if eq_bytes id i then some h.next else lookup i x.agents) e;
      conn = lookup-insert_self h.next fresh h1.conns;
      others = λ c. elim (Bool-cases (h.next == c)) [
        | inl new ↦ inl ((==_iff h.next c).0 new)
        | inr old ↦ elim (close_old_other (lookup id h.agents) h c) [
          | inl replaced ↦ inr (inl replaced)
          | inr kept ↦ inr (
              inr (lookup-insert h.next c fresh h1.conns ∙ (if_false (h.next == c) _ _ old ∙ kept)))
        ]
      ];
    }

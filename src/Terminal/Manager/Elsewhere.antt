-- ===== src/Terminal/Manager/Elsewhere.antt =====
-- What an operation of internal/terminal/manager.go for one chat leaves alone.
use telegram_remote_terminal.Prelude.{
  ltb, ltb→lt, true, ==_iff, ◌≤◌, ◌⊎◌, ℕ, ℤ, ◌≡◌, ◌∙◌, ap, subst, sym, inl, inr, Bool, false, [],
  ◌∷◌, ◌++◌, Bytes, some, arith, lookup, int_key, nat_key, eq_ℤ, ◌==◌, Bool-cases, Option-cases,
}
use telegram_remote_terminal.Terminal.Manager.{
  ManagedSession, Manager, CommandMeta, announce, with_source,
}
use telegram_remote_terminal.Terminal.Manager.Frames.{
  IsElsewhere, Frames, rest, created_event, run_on-Frames,
}
use telegram_remote_terminal.Terminal.Manager.Operations.{send_interactive_input, resize}

-- A session that was not yet started, or is the chat's.
abbrev pub IsOwn : Manager → ℤ → ℕ → Type 0
IsOwn m chat id =
    (m.next ≤ id)
    ⊎ ((entry : ManagedSession) × ((lookup chat m.sessions ≡ some entry) × (entry.session ≡ id)))

some_eq : {a b : ManagedSession} → some a ≡ some b → a ≡ b
some_eq e = cc

IsOwn-cases : (m : Manager) (chat : ℤ) (id : ℕ) → IsOwn m chat id ⊎ IsElsewhere m chat id
IsOwn-cases m chat id = elim (Bool-cases (ltb id m.next)) [
  | inr later ↦ inl (inl (ground (arith, later)))
  | inl before ↦ elim (Option-cases (lookup chat m.sessions)) [
    | inl missing ↦
        inr (record { started = ltb→lt id m.next before; not_here = λ entry e. cc (e, missing) })
    | inr (entry, there) ↦ elim (Bool-cases (entry.session == id)) [
      | inl same ↦ inl (inr (entry, (there, (==_iff entry.session id).0 same)))
      | inr other ↦ inr (record {
        started = ltb→lt id m.next before;
        not_here = λ entry' e.
            subst (λ (x : ManagedSession). x.session == id ≡ false) (some_eq (sym there ∙ e)) other;
      })
    ]
  ]
]

-- What `m'` has of `m` but for the chat: every other entry of the map, every session that was
-- started and is not the chat's, the configuration, and whether it is closed.
pub record Keeps (chat : ℤ) (m m' : Manager) : Type 0 where
  pub entries :
      (other : ℤ) → (eq_ℤ chat other ≡ true) ⊎ (lookup other m'.sessions ≡ lookup other m.sessions)
  pub sessions : (id : ℕ) → IsOwn m chat id ⊎ (lookup id m'.heap ≡ lookup id m.heap)
  pub config : m'.config ≡ m.config
  pub closed : m'.closed ≡ m.closed

-- What the bus is told: nothing, or the new session of the chat.
abbrev pub Tells : ℕ → ℤ → Manager → Manager → Type 0
Tells now chat m m' =
    (m'.events ≡ m.events) ⊎ (m'.events ≡ m.events ++ (created_event chat now ∷ []))

rest_cases :
    (now : ℕ) (chat : ℤ) (m m' : Manager)
    → (rest m' ≡ rest m) ⊎ (rest m' ≡ rest (announce m (created_event chat now)))
    → (m'.config ≡ m.config) × (m'.closed ≡ m.closed) × Tells now chat m m'
rest_cases now chat m m' (inl same) =
    (ap (λ x. x.0) same, ap (λ x. x.1) same, inl (ap (λ x. x.2) same))
rest_cases now chat m m' (inr new) = (ap (λ x. x.0) new, ap (λ x. x.1) new, inr (ap (λ x. x.2) new))

kept_by :
    (now : ℕ) (chat : ℤ) (m m' : Manager)
    → Frames now chat m m'
    → Keeps chat m m' × Tells now chat m m'
kept_by now chat m m' h =
    let (config_kept, closed_kept, tells) = rest_cases now chat m m' h.told in
    (
      record {
        entries = λ other. elim (Bool-cases (eq_ℤ chat other)) [
          | inl same ↦ inl same
          | inr away ↦ inr (h.entries other away)
        ];
        sessions = λ id. elim (IsOwn-cases m chat id) [
          | inl own ↦ inl own
          | inr away ↦ inr (h.elsewhere id away)
        ];
        config = config_kept;
        closed = closed_kept;
      },
      tells,
    )

-- Input for a chat leaves the entries of all other chats alone, and every session that is not the
-- chat's; the bus is told nothing but a new session of the chat.
pub send_interactive_input-Keeps :
    (m : Manager) (now : ℕ) (starts writes : Bool) (chat : ℤ) (text : Bytes) (newline : Bool)
    (by : CommandMeta)
    → let m' = (send_interactive_input m now starts writes chat text newline by).0 in
      Keeps chat m m' × Tells now chat m m'
unfolding send_interactive_input
send_interactive_input-Keeps m now starts writes chat text newline by =
    kept_by now chat m _ (run_on-Frames m now chat _ (with_source by) _ starts)

pub resize-Keeps :
    (m : Manager) (now : ℕ) (starts sets : Bool) (chat cols rows : ℤ) (by : CommandMeta)
    → let m' = (resize m now starts sets chat cols rows by).0 in
      Keeps chat m m' × Tells now chat m m'
unfolding resize
resize-Keeps m now starts sets chat cols rows by =
    kept_by now chat m _ (run_on-Frames m now chat _ (with_source by) _ starts)

-- ===== src/Web/Server/Isolation.antt =====
-- What a message at a socket of internal/webterm/server.go can reach.
use telegram_remote_terminal.Prelude.{
  ℕ, ℤ, ◌≡◌, ◌⊎◌, inl, inr, refl, ap, sym, subst, ◌∙◌, Bool, true, false, ◌||◌, [], ◌++◌, Bytes,
  codes, Option, none, some, if◌then◌else◌, if_false, lookup, lookup-insert, bytes_key, nat_key,
  ◌==◌, ==_iff, eq_bytes, nonpos, Bool-cases, Option-cases,
}
use telegram_remote_terminal.Text.{trim_space, to_lower, is_empty, has_prefix}
use telegram_remote_terminal.Events.{Bus, ◌>>=◌}
use telegram_remote_terminal.Events.Invariant.{Inv}
use telegram_remote_terminal.Events.Publish.{BusKeeps, same-BusKeeps, publish-BusKeeps}
use telegram_remote_terminal.Terminal.Session.{Error}
use telegram_remote_terminal.Terminal.Manager.{Manager}
use telegram_remote_terminal.Terminal.Manager.Operations.{send_interactive_input, resize}
use telegram_remote_terminal.Hub.{
  AgentHub, AgentConn, HubError, on_agent, inputs, resizes, deliver, input, resize_agent,
}
use telegram_remote_terminal.Terminal.Manager.Frames.{created_event}
use telegram_remote_terminal.Terminal.Manager.Elsewhere.{
  Keeps, Tells, send_interactive_input-Keeps, resize-Keeps,
}
use telegram_remote_terminal.Dashboard.Database.{Database}
use telegram_remote_terminal.Web.Server.{World, Server}
use telegram_remote_terminal.Web.Server.Sockets.{
  Socket, ClientMessage, by_webterm, publish_all, on_manager, on_hub, send_input, set_size,
  on_client_message, or_input, on_socket,
}

-- All of the hub but its connections is as it was, and so is every connection but the agent's.
abbrev pub HubKeeps : Bytes → Option AgentHub → Option AgentHub → Type 0
HubKeeps id none none = Unit
HubKeeps id none (some h') = ⊥
HubKeeps id (some h) none = ⊥
HubKeeps id (some h) (some h') =
    (h' ≡ record h { conns = h'.conns })
    × ((c : ℕ) → (lookup id h.agents ≡ some c) ⊎ (lookup c h'.conns ≡ lookup c h.conns))

same-HubKeeps : (id : Bytes) (o : Option AgentHub) → HubKeeps id o o
same-HubKeeps id none = tt
same-HubKeeps id (some h) = (refl, λ c. inr refl)

on_agent-HubKeeps :
    (h : AgentHub) (id : Bytes) (method : AgentConn → AgentConn × Option HubError)
    → HubKeeps id (some h) (some (on_agent h id method).0)
unfolding on_agent
on_agent-HubKeeps h id method = elim (Option-cases (lookup id h.agents)) [
  | inl offline ↦ rw (offline, on_agent) (refl, λ c. inr refl)
  | inr (c0, there) ↦ elim (Option-cases (lookup c0 h.conns)) [
    | inl gone ↦ rw (there, gone, on_agent) (refl, λ c. inr refl)
    | inr (a, conn) ↦
        rw (there, conn, on_agent)
          (
            refl,
            λ c. elim (Bool-cases (c0 == c)) [
              | inl same ↦ inl (ap some ((==_iff c0 c).0 same))
              | inr other ↦
                  inr (lookup-insert c0 c (method a).0 h.conns ∙ if_false (c0 == c) _ _ other)
            ],
          )
  ]
]

module _ (D : Database) where
  -- What a socket may change: without an agent, of the manager and of the bus what is its chat's;
  -- with one, of the hub the agent's connection. It does not panic.
  abbrev pub Stays : Socket → Server D → Option (Server D) → Bool → Type 0
  Stays k s o true =
      (s' : Server D) × (o ≡ some s')
      × (s' ≡ record s { manager = s'.manager; bus = s'.bus })
      × Keeps k.chat s.manager s'.manager
      × BusKeeps k.chat s.bus s'.bus
      × Inv s'.bus
  Stays k s o false =
      (s' : Server D) × (o ≡ some s')
      × (s' ≡ record s { agent_hub = s'.agent_hub })
      × HubKeeps k.agent_id s.agent_hub s'.agent_hub

  same-Stays : (k : Socket) (s : Server D) (b : Bool) → Inv s.bus → Stays k s (some s) b
  same-Stays k s true h = (
    s,
    refl,
    refl,
    record { entries = λ other. inr refl; sessions = λ id. inr refl; config = refl; closed = refl },
    same-BusKeeps k.chat s.bus,
    h,
  )
  same-Stays k s false h = (s, refl, refl, same-HubKeeps k.agent_id s.agent_hub)

  -- What is told about a new session of the chat, or not, is published.
  told :
      (s : Server D) (chat : ℤ) (now : ℕ) (m : Manager)
      → Inv s.bus
      → Tells now chat (record s.manager { events = [] }) m
      → (b' : Bus) × (publish_all s.bus now m.events ≡ some b') × BusKeeps chat s.bus b' × Inv b'
  unfolding publish_all
  told s chat now m h (inl nothing) =
      (s.bus, ap (publish_all s.bus now) nothing, same-BusKeeps chat s.bus, h)
  told s chat now m h (inr new) =
      let (b', done, well_formed, keeps) = publish-BusKeeps s.bus now (created_event chat now) h in
      (b', ap (publish_all s.bus now) new ∙ ap (λ o. o >>= λ b. some b) done, keeps, well_formed)

  on_manager-Stays :
      (k : Socket) (s : Server D) (now : ℕ) (method : Manager → Manager × Option Error)
      → Inv s.bus
      → ((m : Manager) → Keeps k.chat m (method m).0 × Tells now k.chat m (method m).0)
      → Stays k s (on_manager D s now method) true
  unfolding on_manager
  on_manager-Stays k s now method h keeps =
      let m = record s.manager { events = [] } in
      let m' = (method m).0 in
      let (kept, tells) = keeps m in
      let (b', done, bus_keeps, well_formed) = told s k.chat now m' h tells in
      (
        record s { manager = record m' { events = s.manager.events ++ m'.events }; bus = b' },
        ap
            (λ o. o >>= λ b. some (record s {
              manager = record m' { events = s.manager.events ++ m'.events };
              bus = b;
            }))
            done,
        refl,
        record {
          entries = kept.entries;
          sessions = kept.sessions;
          config = kept.config;
          closed = kept.closed;
        },
        bus_keeps,
        well_formed,
      )

  on_hub-Stays :
      (k : Socket) (s : Server D) (method : AgentHub → AgentHub × Option HubError)
      → ((h : AgentHub) → HubKeeps k.agent_id (some h) (some (method h).0))
      → Stays k s (some (on_hub D s method)) false
  on_hub-Stays k s method keeps = elim (Option-cases s.agent_hub) [
    | inl missing ↦
        subst (λ x. Stays k s (some (reached x)) false) (sym missing)
          (s, refl, refl, same-HubKeeps k.agent_id s.agent_hub)
    | inr (h, there) ↦
        subst (λ x. Stays k s (some (reached x)) false) (sym there)
          (
            record s { agent_hub = some (method h).0 },
            refl,
            refl,
            subst (λ x. HubKeeps k.agent_id x (some (method h).0)) (sym there) (keeps h),
          )
  ]
    where
      reached : Option AgentHub → Server D
      reached x = elim x [ none ↦ s | some h ↦ record s { agent_hub = some (method h).0 } ]

  send_input-Stays :
      (s : Server D) (w : World) (k : Socket) (text : Bytes)
      → Inv s.bus
      → Stays k s (send_input D s w k text) (is_empty k.agent_id)
  unfolding send_input input
  send_input-Stays s w k text h = elim (Bool-cases (is_empty k.agent_id)) [
    | inl local ↦
        rw (local, send_input)
          (on_manager-Stays k s w.now
            (λ m. send_interactive_input m w.now w.starts w.writes k.chat text false by_webterm) h
            (λ m.
              send_interactive_input-Keeps m w.now w.starts w.writes k.chat text false by_webterm))
    | inr remote ↦
        rw (remote, send_input)
          (on_hub-Stays k s (λ h. input h k.agent_id k.chat w.writes w.writes text)
            (λ h.
              on_agent-HubKeeps h k.agent_id
                (deliver k.chat w.writes w.writes (inputs k.chat text))))
  ]

  set_size-Stays :
      (s : Server D) (w : World) (k : Socket) (cols rows : ℤ)
      → Inv s.bus
      → Stays k s (set_size D s w k cols rows) (is_empty k.agent_id)
  unfolding set_size resize_agent
  set_size-Stays s w k cols rows h = elim (Bool-cases (is_empty k.agent_id)) [
    | inl local ↦
        rw (local, set_size)
          (on_manager-Stays k s w.now
            (λ m. resize m w.now w.starts w.writes k.chat cols rows by_webterm) h
            (λ m. resize-Keeps m w.now w.starts w.writes k.chat cols rows by_webterm))
    | inr remote ↦
        rw (remote, set_size)
          (on_hub-Stays k s (λ h. resize_agent h k.agent_id k.chat w.writes w.writes cols rows)
            (λ h.
              on_agent-HubKeeps h k.agent_id
                (deliver k.chat w.writes w.writes (resizes k.chat cols rows))))
  ]

  module _ (parse_message : Bytes → Option ClientMessage) (fold : Bytes → Bytes) (s : Server D)
      (w : World) (k : Socket) (h : Inv s.bus) where
    data OkAfter : Option (Option (Server D) × Option Bytes) → Type 0 where
      unread : OkAfter none
      stays :
          (o : Option (Server D)) (pong : Option Bytes)
          → Stays k s o (is_empty k.agent_id)
          → OkAfter (some (o, pong))

    either :
        (b : Bool) (x y : Option (Option (Server D) × Option Bytes))
        → OkAfter x
        → OkAfter y
        → OkAfter (if b then x else y)
    either true x y p q = p
    either false x y p q = q

    on_client_message-OkAfter :
        (msg : ClientMessage) → OkAfter (on_client_message D parse_message fold s w k msg)
    unfolding on_client_message
    on_client_message-OkAfter msg =
        let same = same-Stays k s (is_empty k.agent_id) h in
        let kind = to_lower fold (trim_space msg.kind) in
        either (eq_bytes kind (codes "ping")) _ _ (stays (some s) (some msg.text) same) (
          either (eq_bytes kind (codes "resize")) _ _
            (either (nonpos msg.cols || nonpos msg.rows) _ _ (stays (some s) none same)
              (stays _ none (set_size-Stays s w k msg.cols msg.rows h)))
            (either (eq_bytes kind (codes "input")) _ _
              (either (is_empty msg.text) _ _ (stays (some s) none same)
                (stays _ none (send_input-Stays s w k msg.text h)))
              unread))

    or_input-Stays :
        (payload : Bytes) (o : Option (Option (Server D) × Option Bytes))
        → OkAfter o
        → Stays k s (or_input D parse_message fold s w k payload o).0 (is_empty k.agent_id)
    or_input-Stays payload _ (stays o pong p) = p
    or_input-Stays payload _ unread = send_input-Stays s w k payload h

    decoded :
        (o : Option ClientMessage)
        → OkAfter
            (elim o [ none ↦ none | some msg ↦ on_client_message D parse_message fold s w k msg ])
    decoded none = unread
    decoded (some msg) = on_client_message-OkAfter msg

    -- On a well-formed bus no message at a socket that is handled without an interruption panics or
    -- reaches beyond its chat or its agent. Without an agent, it changes nothing of the server but the
    -- manager and the bus; of the manager neither the configuration, nor whether it is closed, nor an
    -- entry of another chat, nor a session that was started and is not the chat's; of the bus, which
    -- stays well-formed, nothing but the history of the chat and the channels that are subscribed to
    -- it. With one, it changes nothing of the server but the connection of that agent at the hub.
    pub on_socket-Stays :
        (payload : Bytes)
        → Stays k s (on_socket D parse_message fold s w k payload).0 (is_empty k.agent_id)
    unfolding on_socket
    on_socket-Stays payload = elim (Bool-cases (is_empty payload)) [
      | inl nothing ↦ rw (nothing, on_socket) (same-Stays k s (is_empty k.agent_id) h)
      | inr typed ↦
          rw (typed, on_socket)
            (or_input-Stays payload _ (
              either (has_prefix (trim_space payload) (codes "{")) _ none
                (decoded (parse_message (trim_space payload))) unread))
    ]

-- ===== src/Hub/Reach.antt =====
-- The states of the hub, by induction on how they were reached.
use telegram_remote_terminal.Prelude.{
  ℕ, ℤ, ◌≡◌, refl, ◌⊎◌, inl, inr, Bool, true, false, [], ◌∷◌, Bytes, Option, none, some, lookup,
  insert, arith, int_key, nat_key, bytes_key, Bool-cases, Option-cases, lookup-insert_cases, sym,
  subst, not, ◌||◌, if◌then◌else◌, remove,
}
use telegram_remote_terminal.Text.{trim_space, is_empty}
use telegram_remote_terminal.Hub.{
  inputs, resizes, AgentConn, HubError, AgentHub, new_hub, open_chat, close_chat, deliver,
  uninstall_conn, on_agent, open_agent, close_agent, input, resize_agent, uninstall, close_conn,
  close_old, handle_ws, join, leave, on_message, disconnected, is_current,
}
use telegram_remote_terminal.Hub.Protocol.{Good, Sound}
use telegram_remote_terminal.Hub.Protocol
use telegram_remote_terminal.Hub.Calls.{
  open_chat-Sound, close_chat-Sound, inputs-Sound, resizes-Sound, closed-Sound,
  uninstall_conn-Sound,
}

abbrev AllSound : AgentHub → Type 0
AllSound h = (c : ℕ) (a : AgentConn) → lookup c h.conns ≡ some a → Sound a

put-AllSound :
    (h h' : AgentHub) (c : ℕ) (a : AgentConn)
    → AllSound h
    → Sound a
    → h'.conns ≡ insert c a h.conns
    → AllSound h'
put-AllSound h h' c a all sound same d b found =
    elim (lookup-insert_cases c d a b h.conns (rw same at found)) [
      | inl (_, new) ↦ subst Sound new sound
      | inr old ↦ all d b old
    ]

on_agent-AllSound :
    (h : AgentHub) (id : Bytes) (method : AgentConn → AgentConn × Option HubError)
    → ((a : AgentConn) → Sound a → Sound (method a).0)
    → AllSound h
    → AllSound (on_agent h id method).0
unfolding on_agent
on_agent-AllSound h id method keeps all = elim (Option-cases (lookup id h.agents)) [
  | inl offline ↦ rw (offline, on_agent) all
  | inr (c, online) ↦ elim (Option-cases (lookup c h.conns)) [
    | inl gone ↦ rw (online, gone, on_agent) all
    | inr (a, there) ↦
        rw (online, there, on_agent)
          (put-AllSound h (record h { conns = insert c (method a).0 h.conns }) c (method a).0 all
            (keeps a (all c a there)) refl)
  ]
]

close_conn-AllSound : (c : ℕ) (h : AgentHub) → AllSound h → AllSound (close_conn c h)
unfolding close_conn
close_conn-AllSound c h all = elim (Option-cases (lookup c h.conns)) [
  | inl gone ↦ rw (gone, close_conn) all
  | inr (a, there) ↦
      rw (there, close_conn)
        (put-AllSound h (record h { conns = insert c (record a { closed = true }) h.conns }) c
          (record a { closed = true }) all (closed-Sound a (all c a there)) refl)
]

close_old-AllSound : (o : Option ℕ) (h : AgentHub) → AllSound h → AllSound (close_old o h)
close_old-AllSound none h all = all
close_old-AllSound (some c) h all = close_conn-AllSound c h all

fresh-Good : Good (record { refs = []; sent = []; closed = false; failed = false })
unfolding Protocol.Proper Protocol.is_open lookup
fresh-Good = record { proper = tt; counted = λ chat. λ e. cc; agrees = λ chat. refl }

join-AllSound : (h : AgentHub) (id : Bytes) → AllSound h → AllSound (join h id).0
unfolding join
join-AllSound h id all =
    put-AllSound (close_old (lookup id h.agents) h) (join h id).0 h.next _
      (close_old-AllSound (lookup id h.agents) h all) (λ _. fresh-Good) refl

-- `HandleWS` answers with an error and changes nothing, or the agent joins.
handle_ws_cases :
    (validate : Bytes → Bytes → Option Bool) (h : AgentHub) (id token : Bytes) (upgrades : Bool)
    → ((handle_ws validate h id token upgrades).0 ≡ h)
      ⊎ ((handle_ws validate h id token upgrades).0 ≡ (join h (trim_space id)).0)
unfolding handle_ws
handle_ws_cases validate h id token upgrades = elim (Bool-cases (not h.enabled)) [
  | inl off ↦ inl (rw off refl)
  | inr on ↦ elim (Bool-cases (is_empty (trim_space id) || is_empty (trim_space token))) [
    | inl blank ↦ inl (rw (on, blank) refl)
    | inr named ↦ elim (Option-cases (validate (trim_space id) (trim_space token))) [
      | inl error ↦ inl (rw (on, named, error) refl)
      | inr (valid, known) ↦ elim (Bool-cases (not valid)) [
        | inl bad ↦ inl (rw (on, named, known, bad) refl)
        | inr good ↦ elim (Bool-cases (not upgrades)) [
          | inl stays ↦ inl (rw (on, named, known, good, stays) refl)
          | inr upgraded ↦ inr (rw (on, named, known, good, upgraded) refl)
        ]
      ]
    ]
  ]
]

handle_ws-AllSound :
    (validate : Bytes → Bytes → Option Bool) (h : AgentHub) (id token : Bytes) (upgrades : Bool)
    → AllSound h
    → AllSound (handle_ws validate h id token upgrades).0
handle_ws-AllSound validate h id token upgrades all =
    elim (handle_ws_cases validate h id token upgrades) [
      | inl same ↦ subst AllSound (sym same) all
      | inr new ↦ subst AllSound (sym new) (join-AllSound h (trim_space id) all)
    ]

same_conns : (h h' : AgentHub) → h'.conns ≡ h.conns → AllSound h → AllSound h'
same_conns h h' same all c a found = all c a (rw same at found)

leave-AllSound : (h : AgentHub) (id : Bytes) (c : ℕ) → AllSound h → AllSound (leave h id c)
unfolding leave
leave-AllSound h id c all =
    close_conn-AllSound c
      (record h {
        agents = if is_current c (lookup id h.agents) then remove id h.agents else h.agents;
        notices = disconnected id ∷ h.notices;
      })
      all

on_message-conns :
    (fold : Bytes → Bytes) (h : AgentHub) (now : ℕ) (kind : Bytes) (chat : ℤ) (text : Bytes)
    → (on_message fold h now kind chat text).conns ≡ h.conns
unfolding on_message
on_message-conns fold h now kind chat text = ground arith

module _ (validate : Bytes → Bytes → Option Bool) (fold : Bytes → Bytes) (enabled : Bool) where
  -- The states that a new hub can come to by its handlers and methods, in any order, whatever the
  -- token validator says and whichever writes fail.
  pub data Reach : AgentHub → Type 0 where
    starts : Reach (new_hub enabled)
    handles :
        {h : AgentHub} (id token : Bytes) (upgrades : Bool)
        → Reach h
        → Reach (handle_ws validate h id token upgrades).0
    messages :
        {h : AgentHub} (now : ℕ) (kind : Bytes) (chat : ℤ) (text : Bytes)
        → Reach h
        → Reach (on_message fold h now kind chat text)
    leaves : {h : AgentHub} (id : Bytes) (c : ℕ) → Reach h → Reach (leave h id c)
    opens_chat :
        {h : AgentHub} (id : Bytes) (chat : ℤ) (ok : Bool)
        → Reach h
        → Reach (open_agent h id chat ok).0
    closes_chat :
        {h : AgentHub} (id : Bytes) (chat : ℤ) (ok : Bool)
        → Reach h
        → Reach (close_agent h id chat ok)
    sends_input :
        {h : AgentHub} (id : Bytes) (chat : ℤ) (ok ok' : Bool) (text : Bytes)
        → Reach h
        → Reach (input h id chat ok ok' text).0
    sends_size :
        {h : AgentHub} (id : Bytes) (chat : ℤ) (ok ok' : Bool) (cols rows : ℤ)
        → Reach h
        → Reach (resize_agent h id chat ok ok' cols rows).0
    uninstalls_agent :
        {h : AgentHub} (id : Bytes) (ok : Bool) → Reach h → Reach (uninstall h id ok).0

  Reach-AllSound : (h : AgentHub) → Reach h → AllSound h
  unfolding new_hub lookup open_agent close_agent input resize_agent uninstall
  Reach-AllSound _ starts = λ c a found. cc
  Reach-AllSound _ (handles {h = h} id token up r) =
      handle_ws-AllSound validate h id token up (Reach-AllSound h r)
  Reach-AllSound _ (messages {h = h} now kind chat text r) =
      same_conns h (on_message fold h now kind chat text)
        (on_message-conns fold h now kind chat text) (Reach-AllSound h r)
  Reach-AllSound _ (leaves {h = h} id c r) = leave-AllSound h id c (Reach-AllSound h r)
  Reach-AllSound _ (opens_chat {h = h} id chat ok r) =
      on_agent-AllSound h id (open_chat chat ok) (λ a. open_chat-Sound a chat ok)
        (Reach-AllSound h r)
  Reach-AllSound _ (closes_chat {h = h} id chat ok r) =
      on_agent-AllSound h id (close_chat chat ok) (λ a. close_chat-Sound a chat ok)
        (Reach-AllSound h r)
  Reach-AllSound _ (sends_input {h = h} id chat ok ok' text r) =
      on_agent-AllSound h id (deliver chat ok ok' (inputs chat text))
        (λ a. inputs-Sound a chat ok ok' text) (Reach-AllSound h r)
  Reach-AllSound _ (sends_size {h = h} id chat ok ok' cols rows r) =
      on_agent-AllSound h id (deliver chat ok ok' (resizes chat cols rows))
        (λ a. resizes-Sound a chat ok ok' cols rows) (Reach-AllSound h r)
  Reach-AllSound _ (uninstalls_agent {h = h} id ok r) =
      on_agent-AllSound h id (uninstall_conn ok) (λ a. uninstall_conn-Sound a ok)
        (Reach-AllSound h r)

  -- In every state that a new hub can come to, a connection to which no write has failed keeps the
  -- protocol: each chat was opened only while it was not open and got input and sizes only while it
  -- was; and the chats with references, whose counts are positive, are those open for the agent.
  pub Reach-Good :
      (h : AgentHub) (c : ℕ) (a : AgentConn)
      → Reach h
      → lookup c h.conns ≡ some a
      → a.failed ≡ false
      → Good a
  Reach-Good h c a r = Reach-AllSound h r c a

-- ===== src/Hub.antt =====
-- internal/agent/hub.go. `conns` is the heap of the connections that were upgraded, by number; the
-- map `agents` refers to it. `sent` is what was written to a connection, the newest frame first;
-- `failed` remembers that a write to it has failed. Whether a write to an open connection succeeds
-- is an argument. `published` and `notices` are what went to the bus and to the two callbacks.
pub mod Protocol
pub mod Calls
pub mod Joins
pub mod Reach
mod Examples
use telegram_remote_terminal.Prelude.{
  ℕ, suc, ℤ, pos, Bool, true, false, List, [], ◌∷◌, ◌++◌, Bytes, codes, Option, none, some, Map,
  lookup, insert, remove, if◌then◌else◌, not, ◌&&◌, ◌||◌, ◌-◌, ltb, int_key, nat_key, bytes_key,
  is_some, eq_bytes, eq_ℤ, ◌==◌,
}
use telegram_remote_terminal.Text.{trim_space, to_lower, is_empty}
use telegram_remote_terminal.Events.{OutputEvent}

-- A `message` to an agent; the constructor is its `Type`.
pub data Frame : Type 0 where
  opens closes : (chat : ℤ) → Frame
  inputs : (chat : ℤ) (text : Bytes) → Frame
  resizes : (chat cols rows : ℤ) → Frame
  uninstalls : Frame

pub record AgentConn : Type 0 where
  pub refs : Map ℤ ℕ
  pub sent : List Frame
  pub closed : Bool
  pub failed : Bool

pub data Notice : Type 0 where
  connected disconnected : Bytes → Notice

pub record AgentHub : Type 0 where
  pub enabled : Bool
  pub agents : Map Bytes ℕ
  pub conns : Map ℕ AgentConn
  pub next : ℕ
  pub published : List OutputEvent
  pub notices : List Notice

pub data HubError : Type 0 where
  agent_offline send_failed : HubError

unfoldable pub new_hub : Bool → AgentHub
new_hub enabled = record {
  enabled = enabled;
  agents = [];
  conns = [];
  next = 0;
  published = [];
  notices = [];
}

unfoldable pub send : AgentConn → Bool → Frame → AgentConn × Option HubError
send a ok f =
    if ok && not a.closed
    then (record a { sent = f ∷ a.sent }, none)
    else (record a { failed = true }, some send_failed)

-- `refs[chat]`, which is 0 for a missing chat
abbrev pub count_of : Option ℕ → ℕ
count_of none = 0
count_of (some n) = n

-- `Open` on the agent's connection.
unfoldable pub open_chat : ℤ → Bool → AgentConn → AgentConn × Option HubError
unfolding send
open_chat chat ok a =
    let n = suc (count_of (lookup chat a.refs)) in
    let a' = record a { refs = insert chat n a.refs } in
    if ltb 1 n then (a', none) else send a' ok (opens chat)

-- `Close` on the agent's connection.
unfoldable pub close_chat : ℤ → Bool → AgentConn → AgentConn × Option HubError
unfolding send
close_chat chat ok a =
    let current = count_of (lookup chat a.refs) in
    if ltb 1 current
    then (record a { refs = insert chat (current - 1) a.refs }, none)
    else ((send (record a { refs = remove chat a.refs }) ok (closes chat)).0, none)

-- What `Input` and `Resize` do first: open the chat if it has no reference.
unfoldable pub ensure_open : ℤ → Bool → AgentConn → AgentConn × Option HubError
unfolding send
ensure_open chat ok a =
    if is_some (lookup chat a.refs)
    then (a, none)
    else send (record a { refs = insert chat 1 a.refs }) ok (opens chat)

-- The frame follows if the chat is open or could be opened; `ok` is for the opening, `ok'` for it.
unfoldable pub deliver : ℤ → Bool → Bool → Frame → AgentConn → AgentConn × Option HubError
unfolding ensure_open send
deliver chat ok ok' f a =
    let (a1, err) = ensure_open chat ok a in
    elim err [ some e ↦ (a1, some e) | none ↦ send a1 ok' f ]

unfoldable pub uninstall_conn : Bool → AgentConn → AgentConn × Option HubError
unfolding send
uninstall_conn ok a =
    let (a1, err) = send a ok uninstalls in
    elim err [ some e ↦ (a1, some e) | none ↦ (record a1 { closed = true }, none) ]

-- A call of a method of the connection that `get` finds.
unfoldable pub on_agent :
    AgentHub → Bytes → (AgentConn → AgentConn × Option HubError) → AgentHub × Option HubError
on_agent h id method = elim (lookup id h.agents) [
  | none ↦ (h, some agent_offline)
  | some c ↦ elim (lookup c h.conns) [
    | none ↦ (h, some agent_offline)
    | some a ↦ let (a', err) = method a in (record h { conns = insert c a' h.conns }, err)
  ]
]

unfoldable pub open_agent : AgentHub → Bytes → ℤ → Bool → AgentHub × Option HubError
unfolding on_agent
open_agent h id chat ok = on_agent h id (open_chat chat ok)

unfoldable pub close_agent : AgentHub → Bytes → ℤ → Bool → AgentHub
unfolding on_agent
close_agent h id chat ok = (on_agent h id (close_chat chat ok)).0

unfoldable pub input : AgentHub → Bytes → ℤ → Bool → Bool → Bytes → AgentHub × Option HubError
unfolding on_agent
input h id chat ok ok' text = on_agent h id (deliver chat ok ok' (inputs chat text))

unfoldable pub resize_agent :
    AgentHub → Bytes → ℤ → Bool → Bool → ℤ → ℤ → AgentHub × Option HubError
unfolding on_agent
resize_agent h id chat ok ok' cols rows =
    on_agent h id (deliver chat ok ok' (resizes chat cols rows))

unfoldable pub uninstall : AgentHub → Bytes → Bool → AgentHub × Option HubError
unfolding on_agent
uninstall h id ok = on_agent h id (uninstall_conn ok)

unfoldable pub has_agent : AgentHub → Bytes → Bool
has_agent h id = is_some (lookup id h.agents)

unfoldable pub close_conn : ℕ → AgentHub → AgentHub
close_conn c h = elim (lookup c h.conns) [
  | none ↦ h
  | some a ↦ record h { conns = insert c (record a { closed = true }) h.conns }
]

-- The connection that `agents` has for the agent is closed.
abbrev pub close_old : Option ℕ → AgentHub → AgentHub
close_old none h = h
close_old (some c) h = close_conn c h

-- `HandleWS` up to its loop, once the request is accepted: the new connection replaces the old one.
unfoldable pub join : AgentHub → Bytes → AgentHub × ℕ
join h id =
    let h1 = close_old (lookup id h.agents) h in
    (
      record h1 {
        agents = insert id h.next h1.agents;
        conns =
            insert h.next (record { refs = []; sent = []; closed = false; failed = false })
              h1.conns;
        next = suc h.next;
        notices = connected id ∷ h1.notices;
      },
      h.next,
    )

-- An HTTP status, a failed upgrade, or the connection.
pub data Answer : Type 0 where
  answered : ℕ → Answer
  not_upgraded : Answer
  joined : ℕ → Answer

-- The guards of `HandleWS`. `validate` is the token validator, `none` being its error.
unfoldable pub handle_ws :
    (Bytes → Bytes → Option Bool)
    → AgentHub
    → (id token : Bytes) → (upgrades : Bool) → AgentHub × Answer
unfolding join
handle_ws validate h id token upgrades =
    let agent_id = trim_space id in
    let secret = trim_space token in
    if not h.enabled
    then (h, answered 404)
    else if is_empty agent_id || is_empty secret
    then (h, answered 400)
    else elim (validate agent_id secret) [
      | none ↦ (h, answered 403)
      | some valid ↦
          if not valid
          then (h, answered 403)
          else if not upgrades
          then (h, not_upgraded)
          else let (h', c) = join h agent_id in (h', joined c)
    ]

-- One message in the loop of `HandleWS`.
unfoldable pub on_message : (Bytes → Bytes) → AgentHub → ℕ → (kind : Bytes) → ℤ → Bytes → AgentHub
on_message fold h now kind chat text =
    let k = to_lower fold (trim_space kind) in
    let publish = λ (name : Bytes).
      let result : AgentHub = record h {
        published =
            h.published
            ++ (record { chat_id = chat; text = text; kind = name; timestamp = now } ∷ []);
      } in
      result in
    if eq_ℤ chat (pos 0) || is_empty text
    then h
    else if eq_bytes k (codes "output")
    then publish (codes "output")
    else if eq_bytes k (codes "status")
    then publish (codes "status")
    else h

abbrev pub is_current : ℕ → Option ℕ → Bool
is_current c none = false
is_current c (some d) = d == c

-- What follows the loop of `HandleWS` of connection `c`.
unfoldable pub leave : AgentHub → Bytes → ℕ → AgentHub
unfolding close_conn
leave h id c = close_conn c (record h {
  agents = if is_current c (lookup id h.agents) then remove id h.agents else h.agents;
  notices = disconnected id ∷ h.notices;
})

-- ===== src/Web/Server/Sockets.antt =====
-- The terminal's socket, `HandleWS` of internal/webterm/server.go: what it does before its loops, one
-- message of the reading loop, and its end. The writing loop takes events from the channel.
use telegram_remote_terminal.Prelude.{
  ℕ, ℤ, Bool, false, not, ◌||◌, List, [], ◌∷◌, ◌++◌, Bytes, codes, Option, none, some,
  if◌then◌else◌, eq_bytes, nonpos, pos,
}
use telegram_remote_terminal.Text.{trim_space, to_lower, is_empty, has_prefix}
use telegram_remote_terminal.Events.{
  OutputEvent, Bus, subscribe, unsubscribe, snapshot, publish, ◌>>=◌,
}
use telegram_remote_terminal.Hub.{AgentHub, open_agent, close_agent, input, resize_agent}
use telegram_remote_terminal.Hub
use telegram_remote_terminal.Terminal.Session.{Error}
use telegram_remote_terminal.Terminal.Manager.{CommandMeta, Manager}
use telegram_remote_terminal.Terminal.Manager.Operations.{send_interactive_input, resize}
use telegram_remote_terminal.Dashboard.Database.{Database}
use telegram_remote_terminal.Web.Tokens.{TokenStore, resolve_ws_token}
use telegram_remote_terminal.Web.Server.{World, HttpRequest, Reply, refused, Server}

-- What the two goroutines of a socket share.
pub record Socket : Type 0 where
  pub chat : ℤ
  pub agent_id : Bytes
  pub channel : ℕ

-- `hung_up` is a failure behind the upgrade, where the HTTP error can no longer be written;
-- `attached` comes with the history that is sent first.
pub data Attached : Type 0 where
  turned_away : Reply → Attached
  not_upgraded : Attached
  hung_up : Attached
  attached : Socket → List OutputEvent → Attached

pub record ClientMessage : Type 0 where
  pub kind : Bytes
  pub text : Bytes
  pub cols : ℤ
  pub rows : ℤ

-- What is told to the bus, one event after the other. `none` is a panic.
unfoldable pub publish_all : Bus → ℕ → List OutputEvent → Option Bus
unfolding publish
publish_all b now [] = some b
publish_all b now (e ∷ l) = do b' ← publish b now e; publish_all b' now l

abbrev pub by_webterm : CommandMeta
by_webterm = record { user_id = pos 0; source = codes "webterm" }

module _ (D : Database) where
  -- The deferred call of the closure that `Subscribe` returned.
  abbrev pub leave_bus : Server D → ℤ → ℕ → Server D
  leave_bus s chat channel = record s { bus = unsubscribe s.bus chat channel }

  abbrev send_history : Server D → Socket → Bus × List OutputEvent → Server D × Attached
  send_history s k (bus', history) = (record s { bus = bus' }, attached k history)

  abbrev opened : Server D → ℕ → Socket → AgentHub × Option Hub.HubError → Server D × Attached
  opened s now k (h', some e) =
      (leave_bus (record s { agent_hub = some h' }) k.chat k.channel, hung_up)
  opened s now k (h', none) =
      send_history (record s { agent_hub = some h' }) k (snapshot s.bus k.chat now)

  abbrev open_socket : Server D → World → Socket → Server D × Attached
  open_socket s w k =
      if is_empty k.agent_id
      then send_history s k (snapshot s.bus k.chat w.now)
      else elim s.agent_hub [
        | none ↦ (leave_bus s k.chat k.channel, hung_up)
        | some h ↦
            if not h.enabled
            then (leave_bus s k.chat k.channel, hung_up)
            else opened s w.now k (open_agent h k.agent_id k.chat w.writes)
      ]

  abbrev subscribed : Server D → World → Bus × ℕ → ℤ → Bytes → Server D × Attached
  subscribed s w (bus', channel) chat agent_id =
      open_socket (record s { bus = bus' }) w
        (record { chat = chat; agent_id = agent_id; channel = channel })

  abbrev pub admit :
      Server D → World → (upgrades : Bool) → TokenStore × Option (ℤ × Bytes) → Server D × Attached
  admit s w upgrades (tokens', none) =
      (record s { tokens = tokens' }, turned_away (refused "invalid or expired token" 403))
  admit s w upgrades (tokens', some (chat, agent_id)) =
      if not upgrades
      then (record s { tokens = tokens' }, not_upgraded)
      else subscribed (record s { tokens = tokens' }) w (subscribe s.bus chat) chat agent_id

  unfoldable pub attach : Server D → World → HttpRequest → (upgrades : Bool) → Server D × Attached
  unfolding resolve_ws_token subscribe open_agent snapshot unsubscribe
  attach s w r upgrades = admit s w upgrades (resolve_ws_token s.tokens w.now (trim_space r.token))

  abbrev close_viewer : Option AgentHub → World → Socket → Option AgentHub
  close_viewer none w k = none
  close_viewer (some h) w k =
      if is_empty k.agent_id then some h else some (close_agent h k.agent_id k.chat w.writes)

  -- The deferred calls when the socket ends.
  unfoldable pub detach : Server D → World → Socket → Server D
  unfolding close_agent unsubscribe
  detach s w k = leave_bus (record s { agent_hub = close_viewer s.agent_hub w k }) k.chat k.channel

  -- A method of the hub. The socket of an agent is only attached when there is one.
  abbrev pub on_hub : Server D → (AgentHub → AgentHub × Option Hub.HubError) → Server D
  on_hub s method = elim s.agent_hub [
    | none ↦ s
    | some h ↦ record s { agent_hub = some (method h).0 }
  ]

  -- A method of the manager, whose bus is the server's: what it tells that bus is published at once,
  -- with nothing in between. `none` is a panic.
  unfoldable pub on_manager : Server D → ℕ → (Manager → Manager × Option Error) → Option (Server D)
  unfolding publish_all
  on_manager s now method =
      let m' = (method (record s.manager { events = [] })).0 in
      do
        bus' ← publish_all s.bus now m'.events
        some (record s {
          manager = record m' { events = s.manager.events ++ m'.events };
          bus = bus';
        })

  unfoldable pub send_input : Server D → World → Socket → Bytes → Option (Server D)
  unfolding on_manager input send_interactive_input
  send_input s w k text =
      if is_empty k.agent_id
      then on_manager s w.now
          (λ m. send_interactive_input m w.now w.starts w.writes k.chat text false by_webterm)
      else some (on_hub s (λ h. input h k.agent_id k.chat w.writes w.writes text))

  unfoldable pub set_size : Server D → World → Socket → ℤ → ℤ → Option (Server D)
  unfolding on_manager resize_agent resize
  set_size s w k cols rows =
      if is_empty k.agent_id
      then on_manager s w.now (λ m. resize m w.now w.starts w.writes k.chat cols rows by_webterm)
      else some (on_hub s (λ h. resize_agent h k.agent_id k.chat w.writes w.writes cols rows))

  module _ (parse_message : Bytes → Option ClientMessage) (fold : Bytes → Bytes) where
    -- A message that is decoded; `none` is that it is taken for input. Else there is the server, or
    -- none after a panic, and a text that is a pong.
    unfoldable pub on_client_message :
        Server D → World → Socket → ClientMessage → Option (Option (Server D) × Option Bytes)
    unfolding send_input set_size
    on_client_message s w k msg =
        let kind = to_lower fold (trim_space msg.kind) in
        if eq_bytes kind (codes "ping")
        then some (some s, some msg.text)
        else if eq_bytes kind (codes "resize")
        then (if nonpos msg.cols || nonpos msg.rows
            then some (some s, none)
            else some (set_size s w k msg.cols msg.rows, none))
        else if eq_bytes kind (codes "input")
        then (if is_empty msg.text
            then some (some s, none)
            else some (send_input s w k msg.text, none))
        else none

    abbrev pub or_input :
        Server D
        → World
        → Socket
        → Bytes
        → Option (Option (Server D) × Option Bytes)
        → Option (Server D) × Option Bytes
    or_input s w k payload (some done) = done
    or_input s w k payload none = (send_input s w k payload, none)

    -- One text message of the reading loop; the server is `none` after a panic.
    unfoldable pub on_socket : Server D → World → Socket → Bytes → Option (Server D) × Option Bytes
    unfolding on_client_message send_input
    on_socket s w k payload =
        let trimmed = trim_space payload in
        if is_empty payload
        then (some s, none)
        else or_input s w k payload (
            if has_prefix trimmed (codes "{")
            then (elim (parse_message trimmed) [
              | none ↦ none
              | some msg ↦ on_client_message s w k msg
            ])
            else none)

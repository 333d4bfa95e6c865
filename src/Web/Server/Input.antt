-- ===== src/Web/Server/Input.antt =====
-- What is typed at a socket of internal/webterm/server.go.
use telegram_remote_terminal.Prelude.{
  ℕ, ℤ, ◌≡◌, refl, ap, true, false, [], ◌++◌, Bytes, codes, Option, none, some, if◌then◌else◌,
  lookup, int_key, nat_key, eq_ℤ, ◌==◌,
}
use telegram_remote_terminal.Text.{trim_space, is_empty, has_prefix}
use telegram_remote_terminal.Events.{◌>>=◌}
use telegram_remote_terminal.Terminal.Session.{Session}
use telegram_remote_terminal.Terminal.Manager.{ManagedSession}
use telegram_remote_terminal.Terminal.Manager.Live.{Live, send_interactive_input-Live}
use telegram_remote_terminal.Terminal.Manager.Operations.{send_interactive_input}
use telegram_remote_terminal.Dashboard.Database.{Database}
use telegram_remote_terminal.Web.Server.{World, Server}
use telegram_remote_terminal.Web.Server.Sockets.{
  Socket, ClientMessage, by_webterm, publish_all, on_manager, send_input, on_socket,
}

module _ (D : Database) (parse_message : Bytes → Option ClientMessage) (fold : Bytes → Bytes) where
  -- A text that a socket without an agent sends, which is not empty and does not begin with a brace,
  -- comes as it is, spaces included, to the end of what was written to the session of the chat, if
  -- that runs and the write succeeds. No other session is written to, no other chat's entry is
  -- changed, and of the server nothing but the manager.
  pub on_socket-types :
      (s : Server D) (w : World) (k : Socket) (payload : Bytes) (entry : ManagedSession)
      (t : Session)
      → k.agent_id ≡ []
      → Live s.manager k.chat entry t
      → t.stopped ≡ false
      → w.writes ≡ true
      → is_empty payload ≡ false
      → has_prefix (trim_space payload) (codes "{") ≡ false
      → let (o, pong) = on_socket D parse_message fold s w k payload in
        (s' : Server D) × (o ≡ some s')
        × (pong ≡ none)
        × (s' ≡ record s { manager = s'.manager })
        × ((id : ℕ)
            → lookup id s'.manager.heap ≡ (
                if entry.session == id
                then some (record t { written = t.written ++ payload })
                else lookup id s.manager.heap))
        × ((other : ℤ)
            → lookup other s'.manager.sessions ≡ (
                if eq_ℤ k.chat other
                then some (record entry { last_active = w.now })
                else lookup other s.manager.sessions))
  unfolding on_socket send_input on_manager publish_all
  on_socket-types s w k payload entry t local live runs writes typed plain =
      let m = record s.manager { events = [] } in
      let m' = (send_interactive_input m w.now w.starts true k.chat payload false by_webterm).0 in
      let (_, told, heap, sessions) =
        send_interactive_input-Live m w.now w.starts k.chat entry t payload by_webterm
          (record {
            open_yet = live.open_yet;
            registered = live.registered;
            present = live.present;
          })
          runs in
      let done : publish_all s.bus w.now m'.events ≡ some s.bus =
        ap (publish_all s.bus w.now) told in
      (
        record s { manager = record m' { events = s.manager.events ++ m'.events } },
        rw (on_socket, typed, plain, send_input, local, writes)
            (ap
              (λ o. o >>= λ b. some (record s {
                manager = record m' { events = s.manager.events ++ m'.events };
                bus = b;
              }))
              done),
        rw (on_socket, typed, plain) refl,
        refl,
        heap,
        sessions,
      )

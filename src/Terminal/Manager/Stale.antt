-- ===== src/Terminal/Manager/Stale.antt =====
-- What becomes of a session whose process ends before `getOrCreate` has registered it.
use telegram_remote_terminal.Prelude.{
  ℕ, ℤ, ◌≡◌, refl, Bool, true, false, Bytes, none, some, lookup, arith, int_key, nat_key,
  lookup-insert_self, ◌∙◌,
}
use telegram_remote_terminal.Terminal.Session.{Session, stop, write_line, write_raw, io_failed}
use telegram_remote_terminal.Terminal.Manager.{
  ManagedSession, Manager, stop_session, register, on_session,
}
use telegram_remote_terminal.Terminal.Manager.Closing.{on_exit}

exited :
    (m : Manager) (now : ℕ) (chat : ℤ) (id : ℕ) (err : Bytes) (s : Session)
    → lookup id m.heap ≡ some s
    → lookup chat m.sessions ≡ none
    → ((on_exit m now chat id err).sessions ≡ m.sessions)
      × ((on_exit m now chat id err).closed ≡ m.closed)
      × (lookup id (on_exit m now chat id err).heap ≡ some (stop s))
unfolding on_exit stop_session
exited m now chat id err s there free = (
  ground (arith, there, free),
  ground (arith, there, free),
  ground (arith, there, free, lookup-insert_self id (stop s) m.heap),
)

registered :
    (m : Manager) (later : ℕ) (chat : ℤ) (id : ℕ)
    → lookup chat m.sessions ≡ none
    → m.closed ≡ false
    → (lookup chat (register m later chat id).0.sessions
        ≡ some (record { session = id; last_active = later }))
      × ((register m later chat id).0.heap ≡ m.heap)
unfolding register
registered m later chat id free on = (
  ground (
    arith,
    free,
    on,
    lookup-insert_self chat (record { session = id; last_active = later }) m.sessions,
  ),
  ground (arith, free, on),
)

write_line-stop :
    (s : Session) (writes : Bool) (line : Bytes)
    → (write_line (stop s) writes line).1 ≡ some io_failed
unfolding write_line write_raw stop
write_line-stop s true line = refl
write_line-stop s false line = refl

write_stopped :
    (m : Manager) (id : ℕ) (s : Session) (writes : Bool) (line : Bytes)
    → lookup id m.heap ≡ some (stop s)
    → (on_session m id (λ t. write_line t writes line)).1 ≡ some io_failed
unfolding on_session
write_stopped m id s writes line there = rw (there, on_session) (write_line-stop s writes line)

-- The defect: if the process of a session ends after `getOrCreate` has started it and before it
-- registers it, for a chat without a session and with the manager not closed, the session is
-- registered all the same, and in that state every `WriteLine` to it fails.
pub register-on_exit_stale :
    (m : Manager) (now later : ℕ) (chat : ℤ) (id : ℕ) (err : Bytes) (s : Session)
    → lookup id m.heap ≡ some s
    → lookup chat m.sessions ≡ none
    → m.closed ≡ false
    → let m' = (register (on_exit m now chat id err) later chat id).0 in
      ((entry : ManagedSession) × (lookup chat m'.sessions ≡ some entry) × (entry.session ≡ id))
      × ((writes : Bool) (line : Bytes)
          → (on_session m' id (λ t. write_line t writes line)).1 ≡ some io_failed)
register-on_exit_stale m now later chat id err s there free on =
    let (sessions, shut, gone) = exited m now chat id err s there free in
    let m1 = on_exit m now chat id err in
    let free1 : lookup chat m1.sessions ≡ none = rw sessions free in
    let (found, heap) = registered m1 later chat id free1 (shut ∙ on) in
    let stopped : lookup id (register m1 later chat id).0.heap ≡ some (stop s) = rw heap gone in
    (
      (record { session = id; last_active = later }, found, refl),
      λ writes line. write_stopped (register m1 later chat id).0 id s writes line stopped,
    )

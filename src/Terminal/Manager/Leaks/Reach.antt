-- ===== src/Terminal/Manager/Leaks/Reach.antt =====
-- internal/terminal/manager.go with its goroutines interleaved. `getOrCreate`, `Reset`, the sweep and
-- `Close` are cut where they release `mu`: what follows, a registration or a stop, is a step of its
-- own. They are also there as one step, as is an exit.
use telegram_remote_terminal.Prelude.{
  some, remove, int_key, refl, ℕ, ℤ, ◌≡◌, ◌⊎◌, inl, inr, Bool, true, List, [], ◌∷◌, ◌++◌, Bytes,
  Option, lookup, nat_key, arith,
}
use telegram_remote_terminal.Terminal.Session.{Session, Error, write_raw, write_line, write_bytes}
use telegram_remote_terminal.Terminal.Session
use telegram_remote_terminal.Terminal.Manager.{
  ManagedSession, Config, CommandMeta, Audited, Manager, created, new_manager, audit, touch,
  new_session, register, stop_session, on_session,
}
use telegram_remote_terminal.Terminal.Manager.Closing.{
  sweep_out, reset, close, gc_tick, on_output, on_exit,
}
use telegram_remote_terminal.Terminal.Manager.Leaks.{
  Inv, same_Inv, reset-Inv, on_exit-Inv, close-Inv,
}
use telegram_remote_terminal.Terminal.Manager.Running.{
  Runs, IsRegistered, IsPending, stop_session-rest, stop_session-Runs,
}
use telegram_remote_terminal.Terminal.Manager.Leaks.Sweep.{gc_tick-Inv}
use telegram_remote_terminal.Terminal.Manager.Leaks.Calls.{touch-Inv, on_output-Inv, on_session-Inv}
use telegram_remote_terminal.Terminal.Manager.Leaks.Holds.{
  new_session-Inv, register-Inv, take_out-Inv, given_up-Inv, shut-Inv, held,
}

-- A write to a session, or a change of its size.
pub data Method : Type 0 where
  writes_raw writes_line writes_bytes : (ok : Bool) (input : Bytes) → Method
  resizes : (ok : Bool) (cols rows : ℤ) → Method

unfoldable pub call : Method → Session → Session × Option Error
call (writes_raw ok input) s = write_raw s ok input
call (writes_line ok input) s = write_line s ok input
call (writes_bytes ok input) s = write_bytes s ok input
call (resizes ok cols rows) s = Session.resize s ok cols rows

call-stopped : (c : Method) (s : Session) → (call c s).0.stopped ≡ s.stopped
unfolding call write_raw write_line write_bytes Session.resize
call-stopped (writes_raw ok input) s = ground arith
call-stopped (writes_line ok input) s = ground arith
call-stopped (writes_bytes ok input) s = ground arith
call-stopped (resizes ok cols rows) s = ground arith

-- The states that a new manager can come to. `pending` lists the sessions that a goroutine holds
-- outside the lock, with their chats: one that `getOrCreate` has started, or one that was taken out of
-- the map to be stopped. `creates` is the first locked part of `getOrCreate` and the start of the
-- process, `registers` the second; `takes`, `sweeps` and `shuts` are the locked parts of `Reset`, of a
-- turn of the sweep and of `Close`, and `stops` is the stop that is then due; `touches`, `calls` and
-- `audits` are the parts of an operation on a session, `breaks` is the `Stop` of `readLoop`.
pub data Reach (cfg : Config) : Manager → List (ℤ × ℕ) → Type 0 where
  starts : (m : Manager) → new_manager cfg ≡ created m → Reach cfg m []
  creates :
      (m : Manager) (pending : List (ℤ × ℕ)) (chat : ℤ)
      → Reach cfg m pending
      → Reach cfg (new_session m).0 ((chat, m.next) ∷ pending)
  registers :
      (m : Manager) (before after : List (ℤ × ℕ)) (now : ℕ) (chat : ℤ) (id : ℕ)
      → Reach cfg m (before ++ ((chat, id) ∷ after))
      → Reach cfg (register m now chat id).0 (before ++ after)
  touches :
      (m : Manager) (pending : List (ℤ × ℕ)) (now : ℕ) (chat : ℤ)
      → Reach cfg m pending
      → Reach cfg (touch m now chat) pending
  calls :
      (m : Manager) (pending : List (ℤ × ℕ)) (id : ℕ) (c : Method)
      → Reach cfg m pending
      → Reach cfg (on_session m id (call c)).0 pending
  audits :
      (m : Manager) (pending : List (ℤ × ℕ)) (now : ℕ) (chat : ℤ) (what : Audited)
      → (by : CommandMeta) (allowed : Bool) (err : Option Error) → Reach cfg m pending
      → Reach cfg (audit m now chat what by allowed err) pending
  outputs :
      (m : Manager) (pending : List (ℤ × ℕ)) (now : ℕ) (chat : ℤ) (out : Bytes)
      → Reach cfg m pending
      → Reach cfg (on_output m now chat out) pending
  breaks :
      (m : Manager) (pending : List (ℤ × ℕ)) (id : ℕ)
      → Reach cfg m pending
      → Reach cfg (stop_session m id) pending
  exits :
      (m : Manager) (pending : List (ℤ × ℕ)) (now : ℕ) (chat : ℤ) (id : ℕ) (err : Bytes)
      → Reach cfg m pending
      → Reach cfg (on_exit m now chat id err) pending
  resets :
      (m : Manager) (pending : List (ℤ × ℕ)) (chat : ℤ)
      → Reach cfg m pending
      → Reach cfg (reset m chat) pending
  ticks :
      (m : Manager) (pending : List (ℤ × ℕ)) (now : ℕ)
      → Reach cfg m pending
      → Reach cfg (gc_tick m now) pending
  closes :
      (m : Manager) (pending : List (ℤ × ℕ)) → Reach cfg m pending → Reach cfg (close m) pending
  takes :
      (m : Manager) (pending : List (ℤ × ℕ)) (chat : ℤ) (entry : ManagedSession)
      → lookup chat m.sessions ≡ some entry
      → Reach cfg m pending
      → Reach cfg (record m { sessions = remove chat m.sessions }) ((chat, entry.session) ∷ pending)
  sweeps :
      (m : Manager) (pending : List (ℤ × ℕ)) (now : ℕ) (chat : ℤ) (entry : ManagedSession)
      → lookup chat m.sessions ≡ some entry
      → Reach cfg m pending
      → Reach cfg (sweep_out m now chat) ((chat, entry.session) ∷ pending)
  shuts :
      (m : Manager) (pending : List (ℤ × ℕ))
      → Reach cfg m pending
      → Reach cfg (record m { closed = true; sessions = [] }) (held m.sessions ++ pending)
  stops :
      (m : Manager) (before after : List (ℤ × ℕ)) (chat : ℤ) (id : ℕ)
      → Reach cfg m (before ++ ((chat, id) ∷ after))
      → Reach cfg (stop_session m id) (before ++ after)

new_manager-empty :
    (cfg : Config) (m : Manager) → new_manager cfg ≡ created m → (m.sessions ≡ []) × (m.heap ≡ [])
unfolding new_manager
new_manager-empty cfg m h = (ground arith, ground arith)

empty-Inv : (m : Manager) → m.sessions ≡ [] → m.heap ≡ [] → Inv m []
unfolding lookup
empty-Inv m es eh = record {
  distinct = rw es tt;
  shut = λ _. es;
  kept = λ id (s, found, on). cc (rw eh at found);
}

audit-rest :
    (m : Manager) (now : ℕ) (chat : ℤ) (what : Audited) (by : CommandMeta) (allowed : Bool)
    → (err : Option Error)
    → ((audit m now chat what by allowed err).sessions ≡ m.sessions)
      × ((audit m now chat what by allowed err).closed ≡ m.closed)
      × ((audit m now chat what by allowed err).heap ≡ m.heap)
unfolding audit
audit-rest m now chat what by allowed err = (ground arith, ground arith, ground arith)

audit-Inv :
    (m : Manager) (pending : List (ℤ × ℕ)) (now : ℕ) (chat : ℤ) (what : Audited)
    → (by : CommandMeta) (allowed : Bool) (err : Option Error) → Inv m pending
    → Inv (audit m now chat what by allowed err) pending
audit-Inv m pending now chat what by allowed err h =
    let (es, ec, eh) = audit-rest m now chat what by allowed err in
    same_Inv m (audit m now chat what by allowed err) pending es ec
      (λ id (s, found, on). (s, rw (← eh) found, on)) h

stop_session-Inv :
    (m : Manager) (pending : List (ℤ × ℕ)) (id : ℕ)
    → Inv m pending
    → Inv (stop_session m id) pending
stop_session-Inv m pending id h =
    let (es, ec, _) = stop_session-rest m id in
    same_Inv m (stop_session m id) pending es ec (λ j r. (stop_session-Runs m id j r).0) h

Reach-keeps :
    (cfg : Config) (m : Manager) (pending : List (ℤ × ℕ)) → Reach cfg m pending → Inv m pending
Reach-keeps cfg _ _ (starts m e) = let (es, eh) = new_manager-empty cfg m e in empty-Inv m es eh
Reach-keeps cfg _ _ (creates m0 q chat r) = new_session-Inv m0 q chat (Reach-keeps cfg m0 q r)
Reach-keeps cfg _ _ (registers m0 before after now chat id r) =
    register-Inv m0 before after now chat id (Reach-keeps cfg m0 (before ++ ((chat, id) ∷ after)) r)
Reach-keeps cfg _ _ (touches m0 q now chat r) = touch-Inv m0 q now chat (Reach-keeps cfg m0 q r)
Reach-keeps cfg _ _ (calls m0 q id c r) =
    on_session-Inv m0 q id (call c) (call-stopped c) (Reach-keeps cfg m0 q r)
Reach-keeps cfg _ _ (audits m0 q now chat what by allowed err r) =
    audit-Inv m0 q now chat what by allowed err (Reach-keeps cfg m0 q r)
Reach-keeps cfg _ _ (outputs m0 q now chat out r) =
    on_output-Inv m0 q now chat out (Reach-keeps cfg m0 q r)
Reach-keeps cfg _ _ (takes m0 q chat entry there r) =
    take_out-Inv m0 q chat entry there (Reach-keeps cfg m0 q r)
Reach-keeps cfg _ _ (sweeps m0 q now chat entry there r) =
    same_Inv (record m0 { sessions = remove chat m0.sessions }) (sweep_out m0 now chat)
      ((chat, entry.session) ∷ q) refl refl (λ id runs. runs)
      (take_out-Inv m0 q chat entry there (Reach-keeps cfg m0 q r))
Reach-keeps cfg _ _ (shuts m0 q r) = shut-Inv m0 q (Reach-keeps cfg m0 q r)
Reach-keeps cfg _ _ (stops m0 before after chat id r) =
    given_up-Inv m0 before after chat id (Reach-keeps cfg m0 (before ++ ((chat, id) ∷ after)) r)
Reach-keeps cfg _ _ (breaks m0 q id r) = stop_session-Inv m0 q id (Reach-keeps cfg m0 q r)
Reach-keeps cfg _ _ (exits m0 q now chat id err r) =
    on_exit-Inv m0 q now chat id err (Reach-keeps cfg m0 q r)
Reach-keeps cfg _ _ (resets m0 q chat r) = reset-Inv m0 q chat (Reach-keeps cfg m0 q r)
Reach-keeps cfg _ _ (ticks m0 q now r) = gc_tick-Inv m0 q now (Reach-keeps cfg m0 q r)
Reach-keeps cfg _ _ (closes m0 q r) = close-Inv m0 q (Reach-keeps cfg m0 q r)

-- In every state that a new manager can come to, however those steps interleave, a session that
-- runs is one that the map leads to, or one that a goroutine holds, which will register it or stop
-- it: neither a race of two callers of a chat, a reset, an exit, a sweep nor `Close` leaves a process
-- running that nothing refers to.
pub Reach-tracked :
    (cfg : Config) (m : Manager) (pending : List (ℤ × ℕ)) (id : ℕ)
    → Reach cfg m pending
    → Runs m id
    → IsRegistered m id ⊎ IsPending pending id
Reach-tracked cfg m pending id r = (Reach-keeps cfg m pending r).kept id

-- After `Close`, and whatever comes later, no session runs as soon as no goroutine holds one that it
-- is still to register or to stop.
pub Reach-closed :
    (cfg : Config) (m : Manager) (id : ℕ) → Reach cfg m [] → m.closed ≡ true → ¬ Runs m id
unfolding lookup
Reach-closed cfg m id r shut runs =
    let h = Reach-keeps cfg m [] r in
    elim (h.kept id runs) [
      | inl (c, e, found, _) ↦ cc (rw (h.shut shut) at found)
      | inr waits ↦ waits
    ]

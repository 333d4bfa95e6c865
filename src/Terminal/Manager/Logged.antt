-- ===== src/Terminal/Manager/Logged.antt =====
-- The audit record that an operation of internal/terminal/manager.go leaves behind, from `getOrCreate` on.
use telegram_remote_terminal.Prelude.{
  ℕ, ℤ, Bool, true, [], ◌∷◌, ◌++◌, Option, some, not, is_some, Option-cases, ◌≡◌, arith, inl, inr,
  refl, ◌∙◌,
}
use telegram_remote_terminal.Terminal.Session.{Session, Error}
use telegram_remote_terminal.Terminal.Manager.{
  CommandMeta, Audited, Record, Manager, audit, Got, got, failed, touch, find_session, new_session,
  stop_session, register, get_or_create, on_session, with_got, use_session, run_on,
}

-- The parts of the state that only the audit log and `NewManager` write.
abbrev pub Quiet : Manager → Manager → Type 0
Quiet m n = (n.config ≡ m.config) × (n.records ≡ m.records)

pub touch-Quiet : (m : Manager) (now : ℕ) (chat : ℤ) → Quiet m (touch m now chat)
unfolding touch
touch-Quiet m now chat = (ground arith, ground arith)

pub stop_session-Quiet : (m : Manager) (id : ℕ) → Quiet m (stop_session m id)
unfolding stop_session
stop_session-Quiet m id = (ground arith, ground arith)

pub on_session-Quiet :
    (m : Manager) (id : ℕ) (method : Session → Session × Option Error)
    → Quiet m (on_session m id method).0
unfolding on_session
on_session-Quiet m id method = (ground arith, ground arith)

pub find_session-Quiet : (m : Manager) (now : ℕ) (chat : ℤ) → Quiet m (find_session m now chat).0
unfolding find_session
find_session-Quiet m now chat =
    (ground (arith, touch-Quiet m now chat), ground (arith, touch-Quiet m now chat))

pub register-Quiet :
    (m : Manager) (now : ℕ) (chat : ℤ) (id : ℕ) → Quiet m (register m now chat id).0
unfolding register
register-Quiet m now chat id =
    (ground (arith, stop_session-Quiet m id), ground (arith, stop_session-Quiet m id))

pub new_register-Quiet :
    (m : Manager) (now : ℕ) (chat : ℤ)
    → Quiet m (register (new_session m).0 now chat (new_session m).1).0
unfolding new_session
new_register-Quiet m now chat =
    let (a, b) = register-Quiet (new_session m).0 now chat (new_session m).1 in (a, b)

pub get_or_create-Quiet :
    (m : Manager) (now : ℕ) (starts : Bool) (chat : ℤ) → Quiet m (get_or_create m now starts chat).0
unfolding get_or_create
get_or_create-Quiet m now starts chat =
    let (a, b) = find_session-Quiet m now chat in
    let (c, d) = new_register-Quiet (find_session m now chat).0 now chat in
    elim (Option-cases (find_session m now chat).1) [
      | inl none_yet ↦ (ground (arith, a, c, none_yet), ground (arith, b, d, none_yet))
      | inr (g, there) ↦ (ground (arith, a, there), ground (arith, b, there))
    ]

-- The call handed over one record more, of this chat and this input, that tells what it returned.
unfoldable pub Logged : Manager → ℤ → Audited → Manager × Option Error → Type 0
Logged m chat what (m', err) =
    (entry : Record) × (m'.records ≡ m.records ++ (entry ∷ []))
    × (entry.chat_id ≡ chat)
    × (entry.audited ≡ what)
    × (entry.error ≡ err)
    × (entry.allowed ≡ not (is_some err))

pub audit-Logged :
    (m m1 : Manager) (now : ℕ) (chat : ℤ) (what : Audited) (by : CommandMeta) (err : Option Error)
    → m.config.has_audit ≡ true
    → Quiet m m1
    → Logged m chat what (audit m1 now chat what by (not (is_some err)) err, err)
unfolding audit Logged
audit-Logged m m1 now chat what by err on (a, b) = (
  record {
    timestamp = now;
    chat_id = chat;
    user_id = by.user_id;
    source = by.source;
    audited = what;
    allowed = not (is_some err);
    error = err;
  },
  ground (arith, a, b, on),
  refl,
  refl,
  refl,
  refl,
)

pub use_session-Logged :
    (m m1 : Manager) (now : ℕ) (chat : ℤ) (what : Audited) (by : CommandMeta)
    → (method : Session → Session × Option Error) (id : ℕ) → m.config.has_audit ≡ true
    → Quiet m m1
    → Logged m chat what (use_session m1 now chat what by method id)
unfolding use_session
use_session-Logged m m1 now chat what by method id on (a, b) =
    let (c, d) = touch-Quiet m1 now chat in
    let (e, f) = on_session-Quiet (touch m1 now chat) id method in
    audit-Logged m (on_session (touch m1 now chat) id method).0 now chat what by
      (on_session (touch m1 now chat) id method).1 on (e ∙ c ∙ a, f ∙ d ∙ b)

pub with_got-Logged :
    (m m1 : Manager) (now : ℕ) (chat : ℤ) (what : Audited) (by : CommandMeta) (g : Got)
    → (k : ℕ → Manager × Option Error) → m.config.has_audit ≡ true
    → Quiet m m1
    → ((id : ℕ) → Logged m chat what (k id))
    → Logged m chat what (with_got m1 now chat what by g k)
unfolding with_got
with_got-Logged m m1 now chat what by (failed err) k on q h =
    audit-Logged m m1 now chat what by (some err) on q
with_got-Logged m m1 now chat what by (got id) k on q h = h id

pub run_on-Logged :
    (m : Manager) (now : ℕ) (starts : Bool) (chat : ℤ) (what : Audited) (by : CommandMeta)
    → (method : Session → Session × Option Error) → m.config.has_audit ≡ true
    → Logged m chat what (run_on m now starts chat what by method)
unfolding run_on
run_on-Logged m now starts chat what by method on =
    let q = get_or_create-Quiet m now starts chat in
    let m1 = (get_or_create m now starts chat).0 in
    with_got-Logged m m1 now chat what by (get_or_create m now starts chat).1
      (use_session m1 now chat what by method) on q
      (λ id. use_session-Logged m m1 now chat what by method id on q)

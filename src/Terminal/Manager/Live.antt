-- ===== src/Terminal/Manager/Live.antt =====
-- What the operations of internal/terminal/manager.go do to a session that runs.
use telegram_remote_terminal.Prelude.{
  if_true, if_false, ℕ, ℤ, ◌≡◌, refl, ◌∙◌, ap, Bool, true, false, not, ◌++◌, Bytes, Option, none,
  some, if◌then◌else◌, lookup, insert, lookup-insert, lookup-insert_self, int_key, nat_key, eq_ℤ,
  ◌==◌, is_some,
}
use telegram_remote_terminal.Terminal.Session.{Session, Error, write_raw}
use telegram_remote_terminal.Terminal.Manager.{
  ManagedSession, Manager, CommandMeta, Audited, audit, touch, find_session, get_or_create, got,
  Got, on_session, use_session, with_got, run_on, with_source,
}
use telegram_remote_terminal.Terminal.Manager.Operations.{
  send_interactive_input, interactive_audit_command,
}

-- The chat has a session that is in the heap.
pub record Live (m : Manager) (chat : ℤ) (entry : ManagedSession) (s : Session) : Type 0 where
  pub open_yet : m.closed ≡ false
  pub registered : lookup chat m.sessions ≡ some entry
  pub present : lookup entry.session m.heap ≡ some s

touch_lem :
    (m : Manager) (now : ℕ) (chat : ℤ) (entry : ManagedSession)
    → lookup chat m.sessions ≡ some entry
    → touch m now chat
      ≡ record m { sessions = insert chat (record entry { last_active = now }) m.sessions }
unfolding touch
touch_lem m now chat entry there = rw (there, touch) refl

-- The manager after a method of the chat's session, but for the audit record.
abbrev pub used : Manager → ℕ → ℤ → ManagedSession → Session → Manager
used m now chat entry t = record m {
  sessions =
      insert chat (record entry { last_active = now })
        (insert chat (record entry { last_active = now }) m.sessions);
  heap = insert entry.session t m.heap;
}

pub either_way {ℓ κ} :
    {A : Type ℓ} {B : Type κ} (f : A → B) (c : B) (b : Bool) (x y : A)
    → f x ≡ c
    → f y ≡ c
    → f (if b then x else y) ≡ c
either_way f c true x y h k = h
either_way f c false x y h k = k

pub audit_kept :
    (m : Manager) (now : ℕ) (chat : ℤ) (what : Audited) (by : CommandMeta) (allowed : Bool)
    (err : Option Error)
    → ((audit m now chat what by allowed err).heap ≡ m.heap)
      × ((audit m now chat what by allowed err).sessions ≡ m.sessions)
unfolding audit
audit_kept m now chat what by allowed err = (
  either_way (λ x. x.heap) m.heap (not m.config.has_audit) m _ refl refl,
  either_way (λ x. x.sessions) m.sessions (not m.config.has_audit) m _ refl refl,
)

audit_told :
    (m : Manager) (now : ℕ) (chat : ℤ) (what : Audited) (by : CommandMeta) (allowed : Bool)
    (err : Option Error)
    → (audit m now chat what by allowed err).events ≡ m.events
unfolding audit
audit_told m now chat what by allowed err =
    either_way (λ x. x.events) m.events (not m.config.has_audit) m _ refl refl

write_raw_lem :
    (s : Session) (text : Bytes)
    → s.stopped ≡ false
    → write_raw s true text ≡ (record s { written = s.written ++ text }, none)
unfolding write_raw
write_raw_lem s text runs = if_true (not s.stopped) _ _ (ap not runs)

on_session_lem :
    (m : Manager) (id : ℕ) (s : Session) (method : Session → Session × Option Error)
    → lookup id m.heap ≡ some s
    → on_session m id method ≡ (record m { heap = insert id (method s).0 m.heap }, (method s).1)
unfolding on_session
on_session_lem m id s method there = rw (there, on_session) refl

abbrev touched : Manager → ℕ → ℤ → ManagedSession → Manager
touched m now chat entry = record m {
  sessions = insert chat (record entry { last_active = now }) m.sessions;
}

module _ (m : Manager) (now : ℕ) (starts : Bool) (chat : ℤ) (entry : ManagedSession) (s : Session)
    (live : Live m chat entry s) where
  found_first : find_session m now chat ≡ (touched m now chat entry, some (got entry.session))
  unfolding find_session
  found_first = if_false m.closed _ _ live.open_yet ∙ rest
    where
      rest :
          ◌≡◌ {A = Manager × Option Got}
            (elim (lookup chat m.sessions) [
              | none ↦ (m, none)
              | some entry ↦ (touch m now chat, some (got entry.session))
            ])
            (touched m now chat entry, some (got entry.session))
      rest = rw (live.registered, touch_lem m now chat entry live.registered) refl

  found : get_or_create m now starts chat ≡ (touched m now chat entry, got entry.session)
  unfolding get_or_create
  found =
      rw (found_first, get_or_create)
        (ap (λ (x : Manager × Option Got). let y : Manager × Got = (x.0, got entry.session) in y)
          found_first)

  method_used :
      (what : Audited) (by : CommandMeta) (method : Session → Session × Option Error)
      → run_on m now starts chat what by method ≡ (
        audit
            (used m now chat entry (method s).0)
            now
            chat
            what
            by
            (not (is_some (method s).1))
            (method s).1,
        (method s).1,
      )
  unfolding run_on with_got use_session on_session
  method_used what by method =
      let once = touched m now chat entry in
      let again : touch once now chat ≡ touched once now chat entry =
        touch_lem once now chat (record entry { last_active = now })
          (lookup-insert_self chat (record entry { last_active = now }) m.sessions) in
      rw
        (
          run_on,
          found,
          use_session,
          again,
          on_session_lem (touched once now chat entry) entry.session s method live.present,
        )
        refl

overwritten :
    {A : Type 0} (b : Bool) (x y z : A)
    → y ≡ (if b then x else z)
    → (if b then x else y) ≡ (if b then x else z)
overwritten true x y z e = refl
overwritten false x y z e = e

-- What a user types reaches the session of the chat, as it is and at the end, and only that session.
-- The bus is told nothing.
pub send_interactive_input-Live :
    (m : Manager) (now : ℕ) (starts : Bool) (chat : ℤ) (entry : ManagedSession) (s : Session)
    (text : Bytes) (by : CommandMeta)
    → Live m chat entry s
    → s.stopped ≡ false
    → let (m', error) = send_interactive_input m now starts true chat text false by in
      (error ≡ none)
      × (m'.events ≡ m.events)
      × ((id : ℕ)
          → lookup id m'.heap ≡ (
              if entry.session == id
              then some (record s { written = s.written ++ text })
              else lookup id m.heap))
      × ((other : ℤ)
          → lookup other m'.sessions ≡ (
              if eq_ℤ chat other
              then some (record entry { last_active = now })
              else lookup other m.sessions))
unfolding send_interactive_input audit write_raw
send_interactive_input-Live m now starts chat entry s text by live runs =
    let told =
      audit_told (used m now chat entry (write_raw s true text).0) now chat
        (interactive_audit_command text false) (with_source by)
        (not (is_some (write_raw s true text).1)) (write_raw s true text).1 in
    let (heap_kept, sessions_kept) =
      audit_kept (used m now chat entry (write_raw s true text).0) now chat
        (interactive_audit_command text false) (with_source by)
        (not (is_some (write_raw s true text).1)) (write_raw s true text).1 in
    rw (send_interactive_input, method_used m now starts chat entry s live)
      (
        ap (λ x. x.1) (write_raw_lem s text runs),
        told,
        λ id.
            ap (lookup id) heap_kept
            ∙ (lookup-insert entry.session id (write_raw s true text).0 m.heap
                ∙ ap
                    (λ (x : Session × Option Error).
                      if entry.session == id then some x.0 else lookup id m.heap)
                    (write_raw_lem s text runs)),
        λ other.
            ap (lookup other) sessions_kept
            ∙ (lookup-insert chat other (record entry { last_active = now })
                  (insert chat (record entry { last_active = now }) m.sessions)
                ∙ overwritten (eq_ℤ chat other) _ _ _
                    (lookup-insert chat other (record entry { last_active = now }) m.sessions)),
      )

-- ===== src/Terminal/Manager/Frames.antt =====
-- How far an operation of internal/terminal/manager.go for one chat goes.
use telegram_remote_terminal.Prelude.{
  ◌⊎◌, ℕ, ℤ, ◌<◌, ◌≡◌, refl, ◌∙◌, ap, subst, sym, inl, inr, Bool, false, not, List, codes, Option,
  none, some, arith, if◌then◌else◌, if_true, if_false, lookup, insert, lookup-insert, int_key,
  nat_key, eq_ℤ, ◌==◌, Bool-cases, Option-cases, is_some,
}
use telegram_remote_terminal.Events.{OutputEvent}
use telegram_remote_terminal.Terminal.Session.{
  Session, Error, fresh_session, manager_closed, start_failed,
}
use telegram_remote_terminal.Terminal.Manager.{
  ManagedSession, Manager, Config, CommandMeta, Audited, audit, touch, find_session, get_or_create,
  Got, got, failed, on_session, use_session, announce, status_event, stop_session, with_got, run_on,
  new_session, register,
}
use telegram_remote_terminal.Terminal.Manager.Live.{audit_kept, either_way}

-- The session is not that of the chat, and was started before the manager came to `m`.
pub record IsElsewhere (m : Manager) (chat : ℤ) (id : ℕ) : Type 0 where
  pub started : id < m.next
  pub not_here :
      (entry : ManagedSession) → lookup chat m.sessions ≡ some entry → entry.session == id ≡ false

abbrev pub created_event : ℤ → ℕ → OutputEvent
created_event chat now = status_event chat (codes "[new terminal session created]\n") now

-- What is left of a manager but for the sessions and the audit records.
abbrev pub rest : Manager → Config × Bool × List OutputEvent
rest m = (m.config, m.closed, m.events)

-- The other chats have what they had, the sessions elsewhere are as they were, and at most the new
-- session is told to the bus.
pub record Frames (now : ℕ) (chat : ℤ) (m m' : Manager) : Type 0 where
  pub entries :
      (other : ℤ) → eq_ℤ chat other ≡ false → lookup other m'.sessions ≡ lookup other m.sessions
  pub elsewhere : (id : ℕ) → IsElsewhere m chat id → lookup id m'.heap ≡ lookup id m.heap
  pub told : (rest m' ≡ rest m) ⊎ (rest m' ≡ rest (announce m (created_event chat now)))

touched_entries :
    (m : Manager) (now : ℕ) (chat other : ℤ)
    → eq_ℤ chat other ≡ false
    → lookup other (touch m now chat).sessions ≡ lookup other m.sessions
unfolding touch
touched_entries m now chat other away = elim (Option-cases (lookup chat m.sessions)) [
  | inl missing ↦ rw (missing, touch) refl
  | inr (entry, there) ↦
      rw (there, touch)
        (lookup-insert chat other (record entry { last_active = now }) m.sessions
          ∙ if_false (eq_ℤ chat other) _ _ away)
]

touched_heap : (m : Manager) (now : ℕ) (chat : ℤ) → (touch m now chat).heap ≡ m.heap
unfolding touch
touched_heap m now chat = elim (Option-cases (lookup chat m.sessions)) [
  | inl missing ↦ rw (missing, touch) refl
  | inr (entry, there) ↦ rw (there, touch) refl
]

touched_rest : (m : Manager) (now : ℕ) (chat : ℤ) → rest (touch m now chat) ≡ rest m
unfolding touch
touched_rest m now chat = elim (Option-cases (lookup chat m.sessions)) [
  | inl missing ↦ rw (missing, touch) refl
  | inr (entry, there) ↦ rw (there, touch) refl
]

audit_rest :
    (m : Manager) (now : ℕ) (chat : ℤ) (what : Audited) (by : CommandMeta) (allowed : Bool)
    (err : Option Error)
    → rest (audit m now chat what by allowed err) ≡ rest m
unfolding audit
audit_rest m now chat what by allowed err =
    either_way rest (rest m) (not m.config.has_audit) m _ refl refl

-- The session that a method is called on.
method_heap :
    (m : Manager) (id j : ℕ) (method : Session → Session × Option Error)
    → id == j ≡ false
    → lookup j (on_session m id method).0.heap ≡ lookup j m.heap
unfolding on_session
method_heap m id j method away = elim (Option-cases (lookup id m.heap)) [
  | inl missing ↦ rw (missing, on_session) refl
  | inr (s, there) ↦
      rw (there, on_session) (lookup-insert id j (method s).0 m.heap ∙ if_false (id == j) _ _ away)
]

method_entries :
    (m : Manager) (id : ℕ) (method : Session → Session × Option Error)
    → (on_session m id method).0.sessions ≡ m.sessions
unfolding on_session
method_entries m id method = elim (Option-cases (lookup id m.heap)) [
  | inl missing ↦ rw (missing, on_session) refl
  | inr (s, there) ↦ rw (there, on_session) refl
]

method_rest :
    (m : Manager) (id : ℕ) (method : Session → Session × Option Error)
    → rest (on_session m id method).0 ≡ rest m
unfolding on_session
method_rest m id method = elim (Option-cases (lookup id m.heap)) [
  | inl missing ↦ rw (missing, on_session) refl
  | inr (s, there) ↦ rw (there, on_session) refl
]

abbrev with_new : Manager → ℕ → ℤ → Manager
with_new m now chat =
    announce
      (record (new_session m).0 {
        sessions = insert chat (record { session = m.next; last_active = now }) m.sessions;
      })
      (created_event chat now)

-- What `getOrCreate` gives: a failure, the session of the chat, or a new one.
data Gives (m : Manager) (now : ℕ) (chat : ℤ) : Manager × Got → Type 0 where
  gives_error : (m' : Manager) (e : Error) → m' ≡ m → Gives m now chat (m', failed e)
  gives_session :
      (entry : ManagedSession)
      → lookup chat m.sessions ≡ some entry
      → Gives m now chat (touch m now chat, got entry.session)
  gives_new : Gives m now chat (with_new m now chat, got m.next)

-- What follows the first locked part of `getOrCreate`.
abbrev go_on : ℕ → Bool → ℤ → Manager × Option Got → Manager × Got
go_on now starts chat (m, some g) = (m, g)
go_on now starts chat (m, none) =
    if not starts
    then (m, failed start_failed)
    else register (new_session m).0 now chat (new_session m).1

registered :
    (m : Manager) (now : ℕ) (chat : ℤ)
    → m.closed ≡ false
    → lookup chat m.sessions ≡ none
    → register (new_session m).0 now chat (new_session m).1 ≡ (with_new m now chat, got m.next)
unfolding register new_session
registered m now chat on missing = if_false m.closed _ _ on ∙ rest
  where
    rest :
        ◌≡◌ {A = Manager × Got}
          (elim (lookup chat m.sessions) [
            | some existing ↦ (stop_session (new_session m).0 m.next, got existing.session)
            | none ↦ (with_new m now chat, got m.next)
          ])
          (with_new m now chat, got m.next)
    rest = rw missing refl

went_on :
    (now : ℕ) (starts : Bool) (chat : ℤ) (x : Manager × Option Got)
    → ◌≡◌ {A = Manager × Got}
        (elim x.1 [
          | some g ↦ (x.0, g)
          | none ↦
              if not starts
              then (x.0, failed start_failed)
              else register (new_session x.0).0 now chat (new_session x.0).1
        ])
        (go_on now starts chat x)
went_on now starts chat (m, some g) = refl
went_on now starts chat (m, none) = refl

get_or_create-Gives :
    (m : Manager) (now : ℕ) (starts : Bool) (chat : ℤ)
    → Gives m now chat (go_on now starts chat (find_session m now chat))
unfolding find_session new_session
get_or_create-Gives m now starts chat = elim (Bool-cases m.closed) [
  | inl closed ↦
      subst (λ x. Gives m now chat (go_on now starts chat x)) (sym (if_true m.closed _ _ closed))
        (gives_error m manager_closed refl)
  | inr on ↦
      subst (λ x. Gives m now chat (go_on now starts chat x)) (sym (if_false m.closed _ _ on))
        (elim (Option-cases (lookup chat m.sessions)) [
          | inr (entry, there) ↦ rw there (gives_session entry there)
          | inl missing ↦ rw missing (elim (Bool-cases starts) [
            | inr fails ↦ rw fails (gives_error m start_failed refl)
            | inl works ↦ rw (works, registered m now chat on missing) gives_new
          ])
        ])
]

module _ (m : Manager) (now : ℕ) (chat : ℤ) (what : Audited) (by : CommandMeta)
    (method : Session → Session × Option Error) where
  used_entries :
      (m1 : Manager) (id : ℕ) (other : ℤ)
      → eq_ℤ chat other ≡ false
      → lookup other (use_session m1 now chat what by method id).0.sessions
        ≡ lookup other m1.sessions
  unfolding use_session
  used_entries m1 id other away =
      let (m2, error) = on_session (touch m1 now chat) id method in
      ap (lookup other) (
        (audit_kept m2 now chat what by (not (is_some error)) error).1
        ∙ method_entries (touch m1 now chat) id method)
      ∙ touched_entries m1 now chat other away

  used_heap :
      (m1 : Manager) (id j : ℕ)
      → id == j ≡ false
      → lookup j (use_session m1 now chat what by method id).0.heap ≡ lookup j m1.heap
  unfolding use_session
  used_heap m1 id j away =
      let (m2, error) = on_session (touch m1 now chat) id method in
      ap (lookup j) (audit_kept m2 now chat what by (not (is_some error)) error).0
      ∙ (method_heap (touch m1 now chat) id j method away
          ∙ ap (lookup j) (touched_heap m1 now chat))

  used_rest : (m1 : Manager) (id : ℕ) → rest (use_session m1 now chat what by method id).0 ≡ rest m1
  unfolding use_session
  used_rest m1 id =
      let (m2, error) = on_session (touch m1 now chat) id method in
      audit_rest m2 now chat what by (not (is_some error)) error
      ∙ (method_rest (touch m1 now chat) id method ∙ touched_rest m1 now chat)

  -- An operation from what `getOrCreate` gave it.
  abbrev operated : Manager × Got → Manager
  operated (m1, g) = (with_got m1 now chat what by g (use_session m1 now chat what by method)).0

  operated-Frames : (x : Manager × Got) → Gives m now chat x → Frames now chat m (operated x)
  unfolding with_got new_session
  operated-Frames _ (gives_error m' e same) =
      let (heap_kept, entries_kept) = audit_kept m' now chat what by false (some e) in
      record {
        entries = λ other away. ap (lookup other) (entries_kept ∙ ap (λ x. x.sessions) same);
        elsewhere = λ id h. ap (lookup id) (heap_kept ∙ ap (λ x. x.heap) same);
        told = inl (audit_rest m' now chat what by false (some e) ∙ ap rest same);
      }
  operated-Frames _ (gives_session entry there) = record {
    entries = λ other away.
        used_entries (touch m now chat) entry.session other away
        ∙ touched_entries m now chat other away;
    elsewhere = λ id h.
        used_heap (touch m now chat) entry.session id (h.not_here entry there)
        ∙ ap (lookup id) (touched_heap m now chat);
    told = inl (used_rest (touch m now chat) entry.session ∙ touched_rest m now chat);
  }
  operated-Frames _ gives_new = record {
    entries = λ other away.
        used_entries (with_new m now chat) m.next other away
        ∙ (lookup-insert chat other (record { session = m.next; last_active = now }) m.sessions
            ∙ if_false (eq_ℤ chat other) _ _ away);
    elsewhere = λ id h.
        let later : m.next == id ≡ false = ground (arith, h.started) in
        used_heap (with_new m now chat) m.next id later
        ∙ (lookup-insert m.next id fresh_session m.heap ∙ if_false (m.next == id) _ _ later);
    told = inr (used_rest (with_new m now chat) m.next);
  }

  pub run_on-Frames :
      (starts : Bool) → Frames now chat m (run_on m now starts chat what by method).0
  unfolding run_on get_or_create
  run_on-Frames starts =
      subst (λ x. Frames now chat m (operated x))
        (sym (went_on now starts chat (find_session m now chat)))
        (operated-Frames _ (get_or_create-Gives m now starts chat))

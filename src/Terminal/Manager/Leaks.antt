-- ===== src/Terminal/Manager/Leaks.antt =====
-- The sessions that run and the map of internal/terminal/manager.go, through calls, callbacks and sweeps.
pub mod Sweep
pub mod Calls
pub mod Holds
pub mod Reach
use telegram_remote_terminal.Prelude.{
  ℕ, suc, ℤ, ◌<◌, ◌≤◌, ◌≡◌, ◌≢◌, refl, ◌⊎◌, inl, inr, Bool, true, false, List, [], ◌∷◌, ◌++◌, Bytes,
  Option, none, some, arith, Map, IsMap, lookup, insert, remove, lookup-insert, lookup-remove,
  lookup-insert_self, lookup-insert_cases, lookup-remove-some, insert-IsMap, remove-IsMap, int_key,
  nat_key, ==_iff, eq_ℤ_iff, ◌==◌, eq_ℤ, Option-cases, Bool-cases, subst, sym, ◌∙◌, ap,
  if◌then◌else◌, Any, keep_if, not, sub_time, remove-nil, lookup-remove_other, lookup-insert_other,
}
use telegram_remote_terminal.Terminal.Session.{Session, Error, stop, fresh_session}
use telegram_remote_terminal.Terminal.Manager.{
  ManagedSession, Manager, Got, touch, find_session, new_session, stop_session, register,
  on_session, announce,
}
use telegram_remote_terminal.Terminal.Manager.Closing.{
  reset, stop_all, close, idle, expire, sweep_out, gc_tick, on_output, on_exit, is_entry,
}
use telegram_remote_terminal.Terminal.Manager.Running.{
  Runs, IsRegistered, IsPending, stop_session-Runs, stop_session-rest, stop_all-rest, Listed,
  stop_all-Runs,
}

-- A registered session is in the list of the map's entries, and a test that its entry passes keeps it.
pub Listed-lookup :
    (p : ManagedSession → Bool) (chat : ℤ) (entry : ManagedSession) (l : Map ℤ ManagedSession)
    → lookup chat l ≡ some entry
    → p entry ≡ true
    → Listed entry.session (keep_if (λ (x : ℤ × ManagedSession). p x.1) l)
unfolding lookup
Listed-lookup p chat entry [] h pass = cc
Listed-lookup p chat entry ((c, e) ∷ l) h pass = elim (Bool-cases (eq_ℤ c chat)) [
  | inl here ↦
      let same : e ≡ entry = ground (arith, here, h) in
      let hit : p e ≡ true = rw same pass in
      rw hit (inl (ap (λ (x : ManagedSession). x.session) same))
  | inr later ↦
      let rest = Listed-lookup p chat entry l (ground (arith, later, h)) pass in
      elim (Bool-cases (p e)) [ inl kept ↦ rw kept (inr rest) | inr dropped ↦ rw dropped rest ]
]

pub record Inv (m : Manager) (pending : List (ℤ × ℕ)) : Type 0 where
  pub distinct : IsMap m.sessions
  pub shut : m.closed ≡ true → m.sessions ≡ []
  pub kept : (id : ℕ) → Runs m id → IsRegistered m id ⊎ IsPending pending id

-- A step keeps the invariant if it starts nothing and drops only what it has stopped.
pub drop-Inv :
    (m m' : Manager) (pending : List (ℤ × ℕ))
    → Inv m pending
    → IsMap m'.sessions
    → (m'.closed ≡ true → m'.sessions ≡ [])
    → ((id : ℕ) → Runs m' id → Runs m id × (IsRegistered m id → IsRegistered m' id))
    → Inv m' pending
drop-Inv m m' pending h distinct shut keeps = record {
  distinct = distinct;
  shut = shut;
  kept = λ id r.
      let (r', reg) = keeps id r in
      elim (h.kept id r') [ inl registered ↦ inl (reg registered) | inr waits ↦ inr waits ];
}

-- Taking a chat out of the map loses its own session only.
IsRegistered-remove :
    (m : Manager) (chat : ℤ) (id : ℕ)
    → ((entry : ManagedSession) → lookup chat m.sessions ≡ some entry → entry.session ≢ id)
    → IsRegistered m id
    → IsRegistered (record m { sessions = remove chat m.sessions }) id
IsRegistered-remove m chat id other (c, e, found, same) = (
  c,
  e,
  lookup-remove_other chat c m.sessions
        (λ here. other e (subst (λ x. lookup x m.sessions ≡ some e) (sym here) found) same)
      ∙ found,
  same,
)

pub same_sessions :
    (m m' : Manager) (id : ℕ) → m'.sessions ≡ m.sessions → IsRegistered m id → IsRegistered m' id
same_sessions m m' id e (c, entry, found, same) = (c, entry, rw e found, same)

pub same_Inv :
    (m m' : Manager) (pending : List (ℤ × ℕ))
    → m'.sessions ≡ m.sessions
    → m'.closed ≡ m.closed
    → ((id : ℕ) → Runs m' id → Runs m id)
    → Inv m pending
    → Inv m' pending
same_Inv m m' pending es ec runs h =
    drop-Inv m m' pending h (rw es h.distinct) (λ c. es ∙ h.shut (sym ec ∙ c))
      (λ id r. (runs id r, same_sessions m m' id es))

-- The session of a chat is taken out of the map, stopped or not running.
remove-Inv :
    (m m' : Manager) (pending : List (ℤ × ℕ)) (chat : ℤ)
    → Inv m pending
    → m'.sessions ≡ remove chat m.sessions
    → m'.closed ≡ m.closed
    → ((id : ℕ)
        → Runs m' id
        → Runs m id
          × ((entry : ManagedSession) → lookup chat m.sessions ≡ some entry → entry.session ≢ id))
    → Inv m' pending
remove-Inv m m' pending chat h es ec runs =
    drop-Inv m m' pending h (rw es (remove-IsMap chat m.sessions h.distinct))
      (λ c. es ∙ remove-nil chat m.sessions (h.shut (sym ec ∙ c)))
      (λ id r.
        let (r', other) = runs id r in
        (
          r',
          λ reg.
              same_sessions (record m { sessions = remove chat m.sessions }) m' id es
                (IsRegistered-remove m chat id other reg),
        ))

pub reset-Inv :
    (m : Manager) (pending : List (ℤ × ℕ)) (chat : ℤ) → Inv m pending → Inv (reset m chat) pending
unfolding reset
reset-Inv m pending chat h =
    let m1 = record m { sessions = remove chat m.sessions } in
    elim (Option-cases (lookup chat m.sessions)) [
      | inl missing ↦
          rw (missing, reset)
            (remove-Inv m m1 pending chat h refl refl
              (λ id r. (r, λ entry there. cc (missing, there))))
      | inr (entry, there) ↦
          rw (there, reset)
            (let (same, shut, _) = stop_session-rest m1 entry.session in
              remove-Inv m (stop_session m1 entry.session) pending chat h same shut (λ id r.
                let (r', ne) = stop_session-Runs m1 entry.session id r in
                (
                  r',
                  λ e found.
                      let e' : entry ≡ e = cc (there, found) in
                      subst (λ (x : ManagedSession). x.session ≢ id) e' ne,
                )))
    ]

is_entry-eq :
    (id : ℕ) (o : Option ManagedSession) (entry : ManagedSession)
    → o ≡ some entry
    → is_entry id o ≡ true
    → id ≡ entry.session
is_entry-eq id o entry there own = ground (arith, ==_iff entry.session id)

pub on_exit-Inv :
    (m : Manager) (pending : List (ℤ × ℕ)) (now : ℕ) (chat : ℤ) (id : ℕ) (err : Bytes)
    → Inv m pending
    → Inv (on_exit m now chat id err) pending
unfolding on_exit
on_exit-Inv m pending now chat id err h =
    let (same, shut, _) = stop_session-rest m id in
    let m1 = stop_session m id in
    elim (Bool-cases (is_entry id (lookup chat m1.sessions))) [
      | inl own ↦ rw own (
          remove-Inv m _ pending chat h (ap (remove chat) same) shut (λ j r.
            let (r', ne) = stop_session-Runs m id j r in
            (
              r',
              λ entry there back. ne (
                  is_entry-eq id (lookup chat m.sessions) entry there (
                    subst (λ (l : Map ℤ ManagedSession). is_entry id (lookup chat l) ≡ true) same
                      own)
                  ∙ back),
            )))
      | inr other ↦
          rw other (same_Inv m _ pending same shut (λ j r. (stop_session-Runs m id j r).0) h)
    ]

keep_all : (l : List (ℤ × ManagedSession)) → keep_if (λ _. true) l ≡ l
keep_all [] = refl
keep_all (x ∷ l) = ap (◌∷◌ x) (keep_all l)

close_again : (m : Manager) → m.closed ≡ true → close m ≡ m
unfolding close
close_again m h = ground arith

close_first :
    (m : Manager)
    → m.closed ≡ false
    → close m ≡ stop_all (record m { closed = true; sessions = [] }) m.sessions
unfolding close
close_first m h = ground arith

pub close-Inv : (m : Manager) (pending : List (ℤ × ℕ)) → Inv m pending → Inv (close m) pending
close-Inv m pending h = elim (Bool-cases m.closed) [
  | inl already ↦ subst (λ x. Inv x pending) (sym (close_again m already)) h
  | inr on ↦
      let m1 = record m { closed = true; sessions = [] } in
      let (same, _, _) = stop_all-rest m1 m.sessions in
      subst (λ x. Inv x pending) (sym (close_first m on))
        (drop-Inv m (stop_all m1 m.sessions) pending h (rw same tt) (λ _. same)
          (λ id r.
            let (r', unlisted) = stop_all-Runs m1 m.sessions id r in
            (
              r',
              λ (c, e, found, own). absurd (
                  unlisted (
                    subst (λ k. Listed k m.sessions) own
                      (subst (Listed e.session) (keep_all m.sessions)
                        (Listed-lookup (λ _. true) c e m.sessions found refl)))),
            )))
]

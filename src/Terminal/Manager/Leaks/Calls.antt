-- ===== src/Terminal/Manager/Leaks/Calls.antt =====
-- What getting a session, using it and hearing from it keep of the manager's sessions.
use telegram_remote_terminal.Prelude.{
  ℕ, ℤ, ◌≡◌, refl, inl, inr, List, [], Bytes, Option, some, arith, Map, lookup, insert,
  lookup-insert_self, insert-IsMap, int_key, nat_key, ==_iff, eq_ℤ_iff, ◌==◌, eq_ℤ, Option-cases,
  Bool-cases, sym, ◌∙◌, ap, lookup-insert_other,
}
use telegram_remote_terminal.Terminal.Session.{Session, Error}
use telegram_remote_terminal.Terminal.Manager.{ManagedSession, Manager, touch, on_session}
use telegram_remote_terminal.Terminal.Manager.Closing.{on_output}
use telegram_remote_terminal.Terminal.Manager.Leaks.{Inv, drop-Inv, same_Inv}
use telegram_remote_terminal.Terminal.Manager.Running.{Runs}

no_entry :
    (l : Map ℤ ManagedSession) (chat : ℤ) (entry : ManagedSession)
    → l ≡ []
    → ¬ (lookup chat l ≡ some entry)
unfolding lookup
no_entry l chat entry e h = cc (rw e at h)

pub one_entry :
    (a b : ℤ) (l : Map ℤ ManagedSession) (x y : ManagedSession)
    → a ≡ b
    → lookup a l ≡ some x
    → lookup b l ≡ some y
    → x ≡ y
one_entry a b l x y e hx hy = let hy' : lookup a l ≡ some y = rw e hy in cc (hx, hy')

put_back-Inv :
    (m m' : Manager) (pending : List (ℤ × ℕ)) (chat : ℤ) (entry entry' : ManagedSession)
    → Inv m pending
    → lookup chat m.sessions ≡ some entry
    → entry'.session ≡ entry.session
    → m'.sessions ≡ insert chat entry' m.sessions
    → m'.closed ≡ m.closed
    → m'.heap ≡ m.heap
    → Inv m' pending
put_back-Inv m m' pending chat entry entry' h there alias es ec eh =
    drop-Inv m m' pending h (rw es (insert-IsMap chat entry' m.sessions h.distinct))
      (λ c. absurd (no_entry m.sessions chat entry (h.shut (sym ec ∙ c)) there))
      (λ id (s, found, on). (
        (s, rw (← eh) found, on),
        λ (c, e, here, own). elim (Bool-cases (eq_ℤ chat c)) [
          | inl same ↦
              let same' = (eq_ℤ_iff chat c).0 same in
              (
                chat,
                entry',
                rw es (lookup-insert_self chat entry' m.sessions),
                alias
                    ∙ ap (λ (x : ManagedSession). x.session)
                        (one_entry chat c m.sessions entry e same' there here)
                    ∙ own,
              )
          | inr other ↦ (
            c,
            e,
            rw es (
                lookup-insert_other chat c entry' m.sessions
                  (λ x. cc (other, (eq_ℤ_iff chat c).1 x))
                ∙ here),
            own,
          )
        ],
      ))

pub touch-Inv :
    (m : Manager) (pending : List (ℤ × ℕ)) (now : ℕ) (chat : ℤ)
    → Inv m pending
    → Inv (touch m now chat) pending
unfolding touch
touch-Inv m pending now chat h = elim (Option-cases (lookup chat m.sessions)) [
  | inl missing ↦ rw (missing, touch) h
  | inr (entry, there) ↦
      rw (there, touch)
        (put_back-Inv m _ pending chat entry (record entry { last_active = now }) h there refl refl
          refl refl)
]

pub on_output-Inv :
    (m : Manager) (pending : List (ℤ × ℕ)) (now : ℕ) (chat : ℤ) (out : Bytes)
    → Inv m pending
    → Inv (on_output m now chat out) pending
unfolding on_output
on_output-Inv m pending now chat out h =
    same_Inv (touch m now chat) _ pending refl refl (λ id r. r) (touch-Inv m pending now chat h)

on_session-rest :
    (m : Manager) (id : ℕ) (method : Session → Session × Option Error)
    → ((on_session m id method).0.sessions ≡ m.sessions)
      × ((on_session m id method).0.closed ≡ m.closed)
unfolding on_session
on_session-rest m id method = (ground arith, ground arith)

on_session-Runs :
    (m : Manager) (k : ℕ) (method : Session → Session × Option Error)
    → ((s : Session) → (method s).0.stopped ≡ s.stopped)
    → (id : ℕ) → Runs (on_session m k method).0 id
    → Runs m id
unfolding on_session
on_session-Runs m k method keeps id (s, found, on) = elim (Option-cases (lookup k m.heap)) [
  | inl missing ↦ (s, rw (missing, on_session) at found, on)
  | inr (t, there) ↦
      let found' : lookup id (insert k (method t).0 m.heap) ≡ some s =
        rw (there, on_session) at found in
      elim (Bool-cases (k == id)) [
        | inl same ↦
            let e = (==_iff k id).0 same in
            let here : lookup id (insert id (method t).0 m.heap) ≡ some s = rw e at found' in
            let now_is : (method t).0 ≡ s =
              ground (arith, lookup-insert_self id (method t).0 m.heap, here) in
            (t, rw e at there, sym (keeps t) ∙ ap (λ (x : Session). x.stopped) now_is ∙ on)
        | inr other ↦ (
          s,
          sym (lookup-insert_other k id (method t).0 m.heap (λ x. cc (other, (==_iff k id).1 x)))
              ∙ found',
          on,
        )
      ]
]

-- A method of a session that neither stops it nor undoes a stop.
pub on_session-Inv :
    (m : Manager) (pending : List (ℤ × ℕ)) (k : ℕ) (method : Session → Session × Option Error)
    → ((s : Session) → (method s).0.stopped ≡ s.stopped)
    → Inv m pending
    → Inv (on_session m k method).0 pending
on_session-Inv m pending k method keeps h =
    let (es, ec) = on_session-rest m k method in
    same_Inv m (on_session m k method).0 pending es ec (on_session-Runs m k method keeps) h

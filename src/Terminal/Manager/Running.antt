-- ===== src/Terminal/Manager/Running.antt =====
-- Which sessions of internal/terminal/manager.go run, and which do after stops.
use telegram_remote_terminal.Prelude.{
  ℕ, ℤ, ◌≡◌, ◌≢◌, refl, ◌⊎◌, inl, inr, false, List, [], ◌∷◌, some, arith, lookup, insert,
  lookup-insert, int_key, nat_key, ==_iff, ◌==◌, Option-cases, Bool-cases, ◌∙◌, Any,
}
use telegram_remote_terminal.Terminal.Session.{Session, stop}
use telegram_remote_terminal.Terminal.Manager.{ManagedSession, Manager, stop_session}
use telegram_remote_terminal.Terminal.Manager.Closing.{stop_all}

-- The session `id` runs.
abbrev pub Runs : Manager → ℕ → Type 0
Runs m id = (s : Session) × (lookup id m.heap ≡ some s) × (s.stopped ≡ false)

-- The map of the manager leads to the session.
abbrev pub IsRegistered : Manager → ℕ → Type 0
IsRegistered m id =
    (chat : ℤ) × (entry : ManagedSession) × (lookup chat m.sessions ≡ some entry)
    × (entry.session ≡ id)

-- A goroutine that is between the two locked parts of `getOrCreate` holds the session.
abbrev pub IsPending : List (ℤ × ℕ) → ℕ → Type 0
IsPending pending id = Any (λ (p : ℤ × ℕ). p.1 ≡ id) pending

pub stop_session-Runs : (m : Manager) (k id : ℕ) → Runs (stop_session m k) id → Runs m id × (k ≢ id)
unfolding stop_session stop
stop_session-Runs m k id (s, found, on) = elim (Option-cases (lookup k m.heap)) [
  | inl missing ↦
      let found' : lookup id m.heap ≡ some s = rw (missing, stop_session) at found in
      ((s, found', on), λ e. cc)
  | inr (t, there) ↦
      let found' : lookup id (insert k (stop t) m.heap) ≡ some s =
        rw (there, stop_session) at found in
      elim (Bool-cases (k == id)) [
        | inl same ↦ absurd (ground (arith, lookup-insert k id (stop t) m.heap, same, found', on))
        | inr other ↦ (
          (s, ground (arith, lookup-insert k id (stop t) m.heap, other, found'), on),
          λ e. cc (other, (==_iff k id).1 e),
        )
      ]
]

pub stop_session-rest :
    (m : Manager) (k : ℕ)
    → ((stop_session m k).sessions ≡ m.sessions)
      × ((stop_session m k).closed ≡ m.closed)
      × ((stop_session m k).next ≡ m.next)
unfolding stop_session
stop_session-rest m k = (ground arith, ground arith, ground arith)

pub stop_all-rest :
    (m : Manager) (l : List (ℤ × ManagedSession))
    → ((stop_all m l).sessions ≡ m.sessions)
      × ((stop_all m l).closed ≡ m.closed)
      × ((stop_all m l).next ≡ m.next)
unfolding stop_all
stop_all-rest m [] = (refl, refl, refl)
stop_all-rest m ((chat, entry) ∷ rest) =
    let (a, b, c) = stop_session-rest m entry.session in
    let (a', b', c') = stop_all-rest (stop_session m entry.session) rest in (a' ∙ a, b' ∙ b, c' ∙ c)

abbrev pub Listed : ℕ → List (ℤ × ManagedSession) → Type 0
Listed id = Any (λ (p : ℤ × ManagedSession). p.1.session ≡ id)

-- What still runs was not among the sessions to stop.
pub stop_all-Runs :
    (m : Manager) (l : List (ℤ × ManagedSession)) (id : ℕ)
    → Runs (stop_all m l) id
    → Runs m id × ¬ Listed id l
unfolding stop_all
stop_all-Runs m [] id h = (h, λ x. x)
stop_all-Runs m ((chat, entry) ∷ rest) id h =
    let (h', others) = stop_all-Runs (stop_session m entry.session) rest id h in
    let (h'', ne) = stop_session-Runs m entry.session id h' in
    (h'', λ x. unlisted entry.session id rest ne others x)
  where
    unlisted :
        (k id : ℕ) (rest : List (ℤ × ManagedSession))
        → k ≢ id
        → ¬ Listed id rest
        → (k ≡ id) ⊎ Listed id rest
        → ⊥
    unlisted k id rest ne others (inl e) = ne e
    unlisted k id rest ne others (inr h) = others h

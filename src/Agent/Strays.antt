-- ===== src/Agent/Strays.antt =====
-- A shell of cmd/agent/main.go that loses its entry to the callback of the shell before it.
use telegram_remote_terminal.Prelude.{
  ℕ, ℤ, pos, ◌<◌, ◌≡◌, refl, ap, subst, sym, ◌∙◌, inl, inr, false, [], ◌∷◌, Bytes, Option, none,
  some, Map, Key, lookup, insert, remove, lookup-insert, lookup-insert_self, lookup-remove_self,
  int_key, nat_key, eq_ℤ, ◌==◌, All, arith, Bool-cases, Option-cases, same_refl,
}
use telegram_remote_terminal.Terminal.Session.{Session, Error, fresh_session}
use telegram_remote_terminal.Agent.{
  Agent, stop_session, on_open, on_close, on_session, on_exit, stop_all, close_all,
}

module _ {ℓ κ} {K : Type ℓ} {V : Type κ} ⦃e : Key K⦄ where
  remove-insert : (k : K) (v : V) (m : Map K V) → remove k (insert k v m) ≡ remove k m
  unfolding remove insert
  remove-insert k v [] = ground (arith, same_refl k)
  remove-insert k v ((j, w) ∷ m) = elim (Bool-cases (e.same j k)) [
    | inl same ↦ rw (same, remove, same) refl
    | inr other ↦ rw (other, remove, other) (ap (λ x. (j, w) ∷ x) (remove-insert k v m))
  ]

-- The sessions of the map were started before `n`.
abbrev pub OlderThan : ℕ → Map ℤ ℕ → Type 0
OlderThan n = All (λ (p : ℤ × ℕ). p.1 < n)

remove-OlderThan : (n : ℕ) (chat : ℤ) (m : Map ℤ ℕ) → OlderThan n m → OlderThan n (remove chat m)
unfolding remove
remove-OlderThan n chat [] h = tt
remove-OlderThan n chat ((c, id) ∷ m) (h, hs) = elim (Bool-cases (eq_ℤ c chat)) [
  | inl same ↦ rw (same, remove) (remove-OlderThan n chat m hs)
  | inr other ↦ rw (other, remove) (h, remove-OlderThan n chat m hs)
]

stop_session_other :
    (a : Agent) (id j : ℕ) → id == j ≡ false → (lookup j (stop_session a id).heap ≡ lookup j a.heap)
unfolding stop_session
stop_session_other a id j other = elim (Option-cases (lookup id a.heap)) [
  | inl missing ↦ rw (missing, stop_session) refl
  | inr (s, there) ↦ rw (there, stop_session, lookup-insert, other) refl
]

stop_session_sessions : (a : Agent) (id : ℕ) → (stop_session a id).sessions ≡ a.sessions
unfolding stop_session
stop_session_sessions a id = elim (Option-cases (lookup id a.heap)) [
  | inl missing ↦ rw (missing, stop_session) refl
  | inr (s, there) ↦ rw (there, stop_session) refl
]

stop_session_next : (a : Agent) (id : ℕ) → (stop_session a id).next ≡ a.next
unfolding stop_session
stop_session_next a id = elim (Option-cases (lookup id a.heap)) [
  | inl missing ↦ rw (missing, stop_session) refl
  | inr (s, there) ↦ rw (there, stop_session) refl
]

stop_all_newer :
    (a : Agent) (m : Map ℤ ℕ) (n : ℕ)
    → OlderThan n m
    → lookup n (stop_all a m).heap ≡ lookup n a.heap
unfolding stop_all
stop_all_newer a [] n h = refl
stop_all_newer a ((chat, id) ∷ m) n (h, hs) =
    stop_all_newer (stop_session a id) m n hs ∙ stop_session_other a id n (ground arith)

-- A chat that is closed and opened again.
abbrev pub reopened : Agent → ℤ → Agent
reopened a chat = on_open (on_close a chat) none chat

on_session_missing :
    (a : Agent) (chat : ℤ) (method : Session → Session × Option Error)
    → lookup chat a.sessions ≡ none
    → on_session a chat method ≡ a
unfolding on_session
on_session_missing a chat method missing = rw (missing, on_session) refl

on_close_lem :
    (a : Agent) (chat : ℤ) (id : ℕ)
    → eq_ℤ chat (pos 0) ≡ false
    → lookup chat a.sessions ≡ some id
    → on_close a chat ≡ stop_session (record a { sessions = remove chat a.sessions }) id
unfolding on_close
on_close_lem a chat id given there = rw (on_close, given, there) refl

on_open_lem :
    (a : Agent) (chat : ℤ)
    → eq_ℤ chat (pos 0) ≡ false
    → lookup chat a.sessions ≡ none
    → ((on_open a none chat).sessions ≡ insert chat a.next a.sessions)
      × ((on_open a none chat).heap ≡ insert a.next fresh_session a.heap)
unfolding on_open
on_open_lem a chat given free = rw (on_open, given, free) (refl, refl)

reopened_lem :
    (a : Agent) (chat : ℤ) (id : ℕ)
    → eq_ℤ chat (pos 0) ≡ false
    → lookup chat a.sessions ≡ some id
    → ((reopened a chat).sessions ≡ insert chat a.next (remove chat a.sessions))
      × ((reopened a chat).heap
          ≡ insert a.next fresh_session
              (stop_session (record a { sessions = remove chat a.sessions }) id).heap)
reopened_lem a chat id given there =
    let a1 = record a { sessions = remove chat a.sessions } in
    let kept = stop_session_sessions a1 id in
    let next = stop_session_next a1 id in
    let (sessions_are, heap_is) =
      on_open_lem (stop_session a1 id) chat given
        (ap (lookup chat) kept ∙ lookup-remove_self chat a.sessions) in
    rw (on_close_lem a chat id given there, sessions_are, heap_is, kept, next) (refl, refl)

-- The process of the shell that a chat had ends after the chat was closed and opened again: the new
-- shell runs on, but the chat has no session, so that its input is dropped, and the shell outlives
-- `closeAll`.
pub on_exit_strays :
    (a : Agent) (chat : ℤ) (id : ℕ) (error : Option Bytes)
    (method : Session → Session × Option Error)
    → eq_ℤ chat (pos 0) ≡ false
    → OlderThan a.next a.sessions
    → lookup chat a.sessions ≡ some id
    → id < a.next
    → let b = on_exit (reopened a chat) chat id error in
      (lookup a.next b.heap ≡ some fresh_session)
      × (on_session b chat method ≡ b)
      × (lookup a.next (close_all b).heap ≡ some fresh_session)
unfolding on_exit on_session close_all
on_exit_strays a chat id error method given older there before =
    let b = on_exit (reopened a chat) chat id error in
    let (sessions_are, heap_is) = reopened_lem a chat id given there in
    let other : id == a.next ≡ false = ground arith in
    let runs : lookup a.next b.heap ≡ some fresh_session =
      stop_session_other (reopened a chat) id a.next other
      ∙ (ap (lookup a.next) heap_is ∙ lookup-insert_self a.next fresh_session _) in
    let left : b.sessions ≡ remove chat (remove chat a.sessions) =
      ap (remove chat) (stop_session_sessions (reopened a chat) id ∙ sessions_are)
      ∙ remove-insert chat a.next (remove chat a.sessions) in
    (
      runs,
      on_session_missing b chat method (ap (lookup chat) left ∙ lookup-remove_self chat _),
      stop_all_newer (record b { sessions = [] }) b.sessions a.next
            (subst (OlderThan a.next) (sym left)
              (remove-OlderThan a.next chat _ (remove-OlderThan a.next chat a.sessions older)))
          ∙ runs,
    )

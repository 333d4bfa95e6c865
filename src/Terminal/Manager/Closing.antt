-- ===== src/Terminal/Manager/Closing.antt =====
-- How sessions end in internal/terminal/manager.go: `Reset`, `Close`, the idle sweep and the callbacks.
use telegram_remote_terminal.Prelude.{
  ℕ, ℤ, Bool, true, false, List, [], ◌∷◌, ◌++◌, Bytes, codes, Option, none, some, lookup, remove,
  sub_time, ltb, if◌then◌else◌, int_key, nat_key, ◌==◌, keep_if,
}
use telegram_remote_terminal.Terminal.Manager.{
  ManagedSession, Manager, status_event, announce, touch, stop_session,
}

unfoldable pub reset : Manager → ℤ → Manager
unfolding stop_session
reset m chat =
    let m' = record m { sessions = remove chat m.sessions } in
    elim (lookup chat m.sessions) [ none ↦ m' | some entry ↦ stop_session m' entry.session ]

-- `Stop` of each session of a list.
unfoldable pub stop_all : Manager → List (ℤ × ManagedSession) → Manager
unfolding stop_session
stop_all m [] = m
stop_all m ((chat, entry) ∷ rest) = stop_all (stop_session m entry.session) rest

-- `Close`; the audit logger's file is left out.
unfoldable pub close : Manager → Manager
unfolding stop_all
close m = if m.closed then m else stop_all (record m { closed = true; sessions = [] }) m.sessions

-- `entry.lastActive.Before(cutoff)`
abbrev pub idle : ℕ → ManagedSession → Bool
idle cutoff entry = ltb entry.last_active cutoff

-- An idle chat is taken out of the map and told so.
abbrev pub sweep_out : Manager → ℕ → ℤ → Manager
sweep_out m now chat =
    announce (record m { sessions = remove chat m.sessions })
      (status_event chat (codes "\n[session closed due to inactivity]\n") now)

-- The loop of a tick under the lock.
unfoldable pub expire : Manager → ℕ → ℕ → List (ℤ × ManagedSession) → Manager
expire m now cutoff [] = m
expire m now cutoff ((chat, entry) ∷ rest) =
    expire (if idle cutoff entry then sweep_out m now chat else m) now cutoff rest

-- One tick of `gcLoop`.
unfoldable pub gc_tick : Manager → ℕ → Manager
unfolding expire stop_all
gc_tick m now =
    let cutoff = sub_time now m.config.idle_timeout in
    stop_all (expire m now cutoff m.sessions)
      (keep_if (λ (p : ℤ × ManagedSession). idle cutoff p.1) m.sessions)

-- The callback `onOutput` of a session of the chat.
unfoldable pub on_output : Manager → ℕ → ℤ → Bytes → Manager
unfolding touch
on_output m now chat out =
    announce (touch m now chat)
      (record { chat_id = chat; text = out; kind = codes "output"; timestamp = now })

abbrev pub is_entry : ℕ → Option ManagedSession → Bool
is_entry id none = false
is_entry id (some entry) = entry.session == id

-- `waitLoop` once the process of session `id` has ended: `Stop`, then the callback `onExit`, which
-- compares the chat's entry with the session that it was made for.
unfoldable pub on_exit : Manager → ℕ → ℤ → ℕ → Bytes → Manager
unfolding stop_session
on_exit m now chat id err =
    let m1 =
      announce (stop_session m id)
        (status_event chat (codes "\n[session closed: " ++ err ++ codes "]\n") now) in
    if is_entry id (lookup chat m1.sessions)
    then record m1 { sessions = remove chat m1.sessions }
    else m1

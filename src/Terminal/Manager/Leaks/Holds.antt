-- ===== src/Terminal/Manager/Leaks/Holds.antt =====
-- Sessions that a goroutine holds outside the lock: how they are started, registered, taken out of
-- the map and stopped.
use telegram_remote_terminal.Prelude.{
  ℕ, ℤ, ◌≡◌, refl, ◌⊎◌, inl, inr, true, false, List, [], ◌∷◌, ◌++◌, none, some, arith, lookup,
  insert, lookup-insert_self, insert-IsMap, int_key, nat_key, ==_iff, eq_ℤ_iff, ◌==◌, eq_ℤ,
  Option-cases, Bool-cases, subst, sym, ◌∙◌, ap, lookup-insert_other, remove-IsMap, remove-nil,
  lookup-remove_other, remove,
}
use telegram_remote_terminal.Terminal.Session.{fresh_session}
use telegram_remote_terminal.Terminal.Manager.{
  ManagedSession, Manager, new_session, stop_session, register,
}
use telegram_remote_terminal.Terminal.Manager.Leaks.{Inv, same_sessions}
use telegram_remote_terminal.Terminal.Manager.Running.{
  IsPending, stop_session-rest, stop_session-Runs,
}
use telegram_remote_terminal.Terminal.Manager.Leaks.Calls.{one_entry}

pub new_session-Inv :
    (m : Manager) (pending : List (ℤ × ℕ)) (chat : ℤ)
    → Inv m pending
    → Inv (new_session m).0 ((chat, m.next) ∷ pending)
unfolding new_session
new_session-Inv m pending chat h = record {
  distinct = h.distinct;
  shut = h.shut;
  kept = λ id (s, found, on). elim (Bool-cases (m.next == id)) [
    | inl same ↦ inr (inl ((==_iff m.next id).0 same))
    | inr other ↦
        let found' =
          sym (
            lookup-insert_other m.next id fresh_session m.heap
              (λ x. cc (other, (==_iff m.next id).1 x)))
          ∙ found in
        elim (h.kept id (s, found', on)) [
          | inl registered ↦ inl registered
          | inr waits ↦ inr (inr waits)
        ]
  ];
}

taken :
    (chat : ℤ) (id j : ℕ) (before after : List (ℤ × ℕ))
    → IsPending (before ++ ((chat, id) ∷ after)) j
    → (id ≡ j) ⊎ IsPending (before ++ after) j
taken chat id j [] after (inl e) = inl e
taken chat id j [] after (inr later) = inr later
taken chat id j (x ∷ before) after (inl e) = inr (inl e)
taken chat id j (x ∷ before) after (inr later) = elim (taken chat id j before after later) [
  | inl e ↦ inl e
  | inr rest ↦ inr (inr rest)
]

-- A held session is stopped and held no more.
pub given_up-Inv :
    (m : Manager) (before after : List (ℤ × ℕ)) (chat : ℤ) (id : ℕ)
    → Inv m (before ++ ((chat, id) ∷ after))
    → Inv (stop_session m id) (before ++ after)
given_up-Inv m before after chat id h =
    let (same, shut, _) = stop_session-rest m id in
    record {
      distinct = rw same h.distinct;
      shut = λ c. same ∙ h.shut (sym shut ∙ c);
      kept = λ j r.
          let (r', ne) = stop_session-Runs m id j r in
          elim (h.kept j r') [
            | inl registered ↦ inl (same_sessions m (stop_session m id) j same registered)
            | inr waits ↦ elim (taken chat id j before after waits) [
              | inl e ↦ absurd (ne e)
              | inr rest ↦ inr rest
            ]
          ];
    }

put_in-Inv :
    (m m' : Manager) (before after : List (ℤ × ℕ)) (chat : ℤ) (entry : ManagedSession)
    → Inv m (before ++ ((chat, entry.session) ∷ after))
    → lookup chat m.sessions ≡ none
    → m.closed ≡ false
    → m'.sessions ≡ insert chat entry m.sessions
    → m'.closed ≡ m.closed
    → m'.heap ≡ m.heap
    → Inv m' (before ++ after)
put_in-Inv m m' before after chat entry h free on es ec eh = record {
  distinct = rw es (insert-IsMap chat entry m.sessions h.distinct);
  shut = λ c. cc (c, ec, on);
  kept = λ j (s, found, live). elim (h.kept j (s, rw (← eh) found, live)) [
    | inl (c, e, here, own) ↦ inl (
      c,
      e,
      rw es (lookup-insert_other chat c entry m.sessions (λ x. occupied c e here x) ∙ here),
      own,
    )
    | inr waits ↦ elim (taken chat entry.session j before after waits) [
      | inl same ↦ inl (chat, entry, rw es (lookup-insert_self chat entry m.sessions), same)
      | inr rest ↦ inr rest
    ]
  ];
}
  where
    occupied : (c : ℤ) (e : ManagedSession) → lookup c m.sessions ≡ some e → chat ≡ c → ⊥
    occupied c e here x =
        let here' : lookup chat m.sessions ≡ some e = rw x here in cc (free, here')

register_shut :
    (m : Manager) (now : ℕ) (chat : ℤ) (id : ℕ)
    → m.closed ≡ true
    → (register m now chat id).0 ≡ stop_session m id
unfolding register
register_shut m now chat id h = ground arith

pub register-Inv :
    (m : Manager) (before after : List (ℤ × ℕ)) (now : ℕ) (chat : ℤ) (id : ℕ)
    → Inv m (before ++ ((chat, id) ∷ after))
    → Inv (register m now chat id).0 (before ++ after)
unfolding register
register-Inv m before after now chat id h = elim (Bool-cases m.closed) [
  | inl shut ↦
      subst (λ x. Inv x (before ++ after)) (sym (register_shut m now chat id shut))
        (given_up-Inv m before after chat id h)
  | inr on ↦ elim (Option-cases (lookup chat m.sessions)) [
    | inl free ↦
        rw (on, free, register)
          (put_in-Inv m _ before after chat (record { session = id; last_active = now }) h free on
            refl refl refl)
    | inr (entry, there) ↦ rw (on, there, register) (given_up-Inv m before after chat id h)
  ]
]

-- The locked part of `Reset`, or of one turn of the sweep: the caller holds the session, to stop it.
pub take_out-Inv :
    (m : Manager) (pending : List (ℤ × ℕ)) (chat : ℤ) (entry : ManagedSession)
    → lookup chat m.sessions ≡ some entry
    → Inv m pending
    → Inv (record m { sessions = remove chat m.sessions }) ((chat, entry.session) ∷ pending)
take_out-Inv m pending chat entry there h = record {
  distinct = remove-IsMap chat m.sessions h.distinct;
  shut = λ c. remove-nil chat m.sessions (h.shut c);
  kept = λ id runs. elim (h.kept id runs) [
    | inl (c, e, found, own) ↦ elim (Bool-cases (eq_ℤ chat c)) [
      | inl same ↦ inr (
          inl (
            ap (λ (x : ManagedSession). x.session)
              (one_entry chat c m.sessions entry e ((eq_ℤ_iff chat c).0 same) there found)
            ∙ own))
      | inr other ↦ inl (
        c,
        e,
        lookup-remove_other chat c m.sessions (λ x. cc (other, (eq_ℤ_iff chat c).1 x)) ∙ found,
        own,
      )
    ]
    | inr waits ↦ inr (inr waits)
  ];
}

-- The sessions of the entries, with their chats.
abbrev pub held : List (ℤ × ManagedSession) → List (ℤ × ℕ)
held [] = []
held ((chat, entry) ∷ l) = (chat, entry.session) ∷ held l

held_entry :
    (c : ℤ) (e : ManagedSession) (l : List (ℤ × ManagedSession)) (pending : List (ℤ × ℕ))
    → lookup c l ≡ some e
    → IsPending (held l ++ pending) e.session
unfolding lookup
held_entry c e [] pending h = cc
held_entry c e ((chat, entry) ∷ l) pending h = elim (Bool-cases (eq_ℤ chat c)) [
  | inl here ↦
      let same : entry ≡ e = ground (arith, here, h) in
      inl (ap (λ (x : ManagedSession). x.session) same)
  | inr later ↦ inr (held_entry c e l pending (ground (arith, later, h)))
]

held_before :
    (l : List (ℤ × ManagedSession)) (pending : List (ℤ × ℕ)) (id : ℕ)
    → IsPending pending id
    → IsPending (held l ++ pending) id
held_before [] pending id h = h
held_before ((chat, entry) ∷ l) pending id h = inr (held_before l pending id h)

-- The locked part of `Close`, which holds all sessions of the map then.
pub shut-Inv :
    (m : Manager) (pending : List (ℤ × ℕ))
    → Inv m pending
    → Inv (record m { closed = true; sessions = [] }) (held m.sessions ++ pending)
shut-Inv m pending h = record {
  distinct = tt;
  shut = λ _. refl;
  kept = λ id runs. elim (h.kept id runs) [
    | inl (c, e, found, own) ↦ inr (
        subst (IsPending (held m.sessions ++ pending)) own
          (held_entry c e m.sessions pending found))
    | inr waits ↦ inr (held_before m.sessions pending id waits)
  ];
}

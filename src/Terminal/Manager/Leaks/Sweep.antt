-- ===== src/Terminal/Manager/Leaks/Sweep.antt =====
-- One tick of `gcLoop` of internal/terminal/manager.go stops what it takes out of the map.
use telegram_remote_terminal.Prelude.{
  ℕ, ℤ, ◌≡◌, refl, ◌⊎◌, inl, inr, Bool, true, false, List, [], ◌∷◌, Option, none, some, arith, Map,
  IsMap, lookup, remove-IsMap, int_key, nat_key, eq_ℤ_iff, eq_ℤ, Bool-cases, subst, sym, ◌∙◌,
  if◌then◌else◌, Any, keep_if, sub_time, remove-nil, lookup-remove_other,
}
use telegram_remote_terminal.Terminal.Manager.{ManagedSession, Manager}
use telegram_remote_terminal.Terminal.Manager.Closing.{stop_all, idle, expire, sweep_out, gc_tick}
use telegram_remote_terminal.Terminal.Manager.Leaks.{Inv, Listed-lookup, drop-Inv}
use telegram_remote_terminal.Terminal.Manager.Running.{Listed, stop_all-rest, stop_all-Runs}

module _ (m : Manager) (now cutoff : ℕ) (c : ℤ) (e : ManagedSession)
    (l : List (ℤ × ManagedSession)) where
  expire_old :
      idle cutoff e ≡ true
      → expire m now cutoff ((c, e) ∷ l) ≡ expire (sweep_out m now c) now cutoff l
  unfolding expire
  expire_old old = rw (expire, old) refl

  expire_live : idle cutoff e ≡ false → expire m now cutoff ((c, e) ∷ l) ≡ expire m now cutoff l
  unfolding expire
  expire_live live = rw (expire, live) refl

-- What a tick's sweep keeps of a predicate that taking a chat out of the map keeps.
expire_keeps :
    (P : Manager → Type 0)
    → ((m : Manager) (now : ℕ) (c : ℤ) → P m → P (sweep_out m now c))
    → (m : Manager) (now cutoff : ℕ) (l : List (ℤ × ManagedSession)) → P m
    → P (expire m now cutoff l)
expire_keeps P keep m now cutoff [] h = unfold expire in h
expire_keeps P keep m now cutoff ((c, e) ∷ l) h = elim (Bool-cases (idle cutoff e)) [
  | inl old ↦
      rw (expire_old m now cutoff c e l old)
        (expire_keeps P keep (sweep_out m now c) now cutoff l (keep m now c h))
  | inr live ↦ rw (expire_live m now cutoff c e l live) (expire_keeps P keep m now cutoff l h)
]

-- The chat has an idle entry in the list.
abbrev HasIdle : ℕ → ℤ → List (ℤ × ManagedSession) → Type 0
HasIdle cutoff chat = Any (λ (p : ℤ × ManagedSession). (p.0 ≡ chat) × (idle cutoff p.1 ≡ true))

or_later : (A B C : Type 0) → A ⊎ B → A ⊎ (C ⊎ B)
or_later A B C (inl a) = inl a
or_later A B C (inr b) = inr (inr b)

expire-lookup :
    (m : Manager) (now cutoff : ℕ) (l : List (ℤ × ManagedSession)) (chat : ℤ)
    (entry : ManagedSession)
    → lookup chat m.sessions ≡ some entry
    → (lookup chat (expire m now cutoff l).sessions ≡ some entry) ⊎ HasIdle cutoff chat l
expire-lookup m now cutoff [] chat entry h = inl (unfold expire in h)
expire-lookup m now cutoff ((c, e) ∷ l) chat entry h = elim (Bool-cases (idle cutoff e)) [
  | inl old ↦ elim (Bool-cases (eq_ℤ c chat)) [
    | inl here ↦ inr (inl ((eq_ℤ_iff c chat).0 here, old))
    | inr other ↦ rw (expire_old m now cutoff c e l old) (
        or_later _ _ _ (
          expire-lookup (sweep_out m now c) now cutoff l chat entry (
            lookup-remove_other c chat m.sessions (λ same. cc (other, (eq_ℤ_iff c chat).1 same))
            ∙ h)))
  ]
  | inr live ↦
      rw (expire_live m now cutoff c e l live)
        (or_later _ _ _ (expire-lookup m now cutoff l chat entry h))
]

absent_tail :
    (b : Bool) (e : ManagedSession) (o : Option ManagedSession)
    → (if b then some e else o) ≡ none
    → o ≡ none
absent_tail b e o h = ground arith

HasIdle-absent :
    (cutoff : ℕ) (chat : ℤ) (l : Map ℤ ManagedSession)
    → lookup chat l ≡ none
    → ¬ HasIdle cutoff chat l
unfolding lookup
HasIdle-absent cutoff chat [] h x = x
HasIdle-absent cutoff chat ((c, e) ∷ l) h (inl (same, old)) =
    cc ((eq_ℤ_iff c chat).1 same, rw ((eq_ℤ_iff c chat).1 same) at h)
HasIdle-absent cutoff chat ((c, e) ∷ l) h (inr later) =
    HasIdle-absent cutoff chat l (absent_tail (eq_ℤ c chat) e (lookup chat l) h) later

HasIdle-lookup :
    (cutoff : ℕ) (chat : ℤ) (entry : ManagedSession) (l : Map ℤ ManagedSession)
    → IsMap l
    → lookup chat l ≡ some entry
    → HasIdle cutoff chat l
    → idle cutoff entry ≡ true
unfolding lookup
HasIdle-lookup cutoff chat entry [] h found x = absurd x
HasIdle-lookup cutoff chat entry ((c, e) ∷ l) h found (inl (same, old)) =
    ground (arith, eq_ℤ_iff c chat, found, old, same)
HasIdle-lookup cutoff chat entry ((c, e) ∷ l) h found (inr later) =
    elim (Bool-cases (eq_ℤ c chat)) [
      | inl here ↦ absurd (
          HasIdle-absent cutoff chat l
            (subst (λ x. lookup x l ≡ none) ((eq_ℤ_iff c chat).0 here) h.0) later)
      | inr other ↦ HasIdle-lookup cutoff chat entry l h.1 (ground (arith, other, found)) later
    ]

-- A tick of the idle sweep keeps track of every session.
pub gc_tick-Inv :
    (m : Manager) (pending : List (ℤ × ℕ)) (now : ℕ) → Inv m pending → Inv (gc_tick m now) pending
unfolding gc_tick
gc_tick-Inv m pending now h =
    let cutoff = sub_time now m.config.idle_timeout in
    let m1 = expire m now cutoff m.sessions in
    let (heap_same, shut_same) =
      expire_keeps (λ x. (x.heap ≡ m.heap) × (x.closed ≡ m.closed)) (λ x n c k. k) m now cutoff
        m.sessions (refl, refl) in
    let olds = keep_if (λ (p : ℤ × ManagedSession). idle cutoff p.1) m.sessions in
    let (same, shut, _) = stop_all-rest m1 olds in
    drop-Inv m (stop_all m1 olds) pending h
      (rw same (
        expire_keeps (λ x. IsMap x.sessions) (λ x n c. remove-IsMap c x.sessions) m now cutoff
          m.sessions h.distinct))
      (λ c.
        same
        ∙ expire_keeps (λ x. x.sessions ≡ []) (λ x n c. remove-nil c x.sessions) m now cutoff
            m.sessions (h.shut (sym (shut ∙ shut_same) ∙ c)))
      (λ id r.
        let ((s, found, on), unlisted) = stop_all-Runs m1 olds id r in
        (
          (s, rw (← heap_same) found, on),
          λ (c, e, there, own). elim (expire-lookup m now cutoff m.sessions c e there) [
            | inl stays ↦ (c, e, rw same stays, own)
            | inr swept ↦ absurd (
                unlisted (
                  subst (λ k. Listed k olds) own
                    (Listed-lookup (idle cutoff) c e m.sessions there
                      (HasIdle-lookup cutoff c e m.sessions h.distinct there swept))))
          ],
        ))

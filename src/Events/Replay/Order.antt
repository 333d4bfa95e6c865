-- ===== src/Events/Replay/Order.antt =====
-- Lists of events in the order of their times.
use telegram_remote_terminal.Prelude.{
  ℕ, ◌≤◌, ◌≡◌, refl, Bool, true, List, [], ◌∷◌, ◌++◌, arith, ltb, keep_if, All, not,
}
use telegram_remote_terminal.Events.{OutputEvent, drop_before}

-- not older than `cutoff`
abbrev pub recent : ℕ → OutputEvent → Bool
recent cutoff e = not (ltb e.timestamp cutoff)

abbrev pub Sorted : List OutputEvent → Type 0
Sorted [] = Unit
Sorted (e ∷ l) = All (λ (x : OutputEvent). e.timestamp ≤ x.timestamp) l × Sorted l

pub All-le_trans :
    (m n : ℕ) (l : List OutputEvent)
    → m ≤ n
    → All (λ (x : OutputEvent). x.timestamp ≤ m) l
    → All (λ (x : OutputEvent). x.timestamp ≤ n) l
All-le_trans m n [] le h = tt
All-le_trans m n (e ∷ l) le h = (omega arith, All-le_trans m n l le h.1)

keep_if-recent :
    (c t : ℕ) (l : List OutputEvent)
    → c ≤ t
    → All (λ (x : OutputEvent). t ≤ x.timestamp) l
    → keep_if (recent c) l ≡ l
keep_if-recent c t [] le h = refl
keep_if-recent c t (e ∷ l) le h = ground (arith, keep_if-recent c t l le h.1)

-- The loop of `pruneHistoryLocked` stops at the first event that is recent enough; in a sorted
-- history that drops exactly the old ones.
pub drop_before-keep_if :
    (c : ℕ) (l : List OutputEvent) → Sorted l → drop_before c l ≡ keep_if (recent c) l
unfolding drop_before
drop_before-keep_if c [] h = refl
drop_before-keep_if c (e ∷ l) h = ground (
  arith,
  drop_before-keep_if c l h.1,
  λ (le : c ≤ e.timestamp). keep_if-recent c e.timestamp l le h.0,
)

pub keep_if-keep_if :
    (c d : ℕ) (l : List OutputEvent)
    → c ≤ d
    → keep_if (recent d) (keep_if (recent c) l) ≡ keep_if (recent d) l
keep_if-keep_if c d [] le = refl
keep_if-keep_if c d (e ∷ l) le = ground (arith, keep_if-keep_if c d l le)

pub keep_if-concat :
    (p : OutputEvent → Bool) (l : List OutputEvent) (e : OutputEvent)
    → p e ≡ true
    → keep_if p (l ++ (e ∷ [])) ≡ keep_if p l ++ (e ∷ [])
keep_if-concat p [] e h = rw h
keep_if-concat p (x ∷ l) e h = ground (arith, keep_if-concat p l e h)

All-keep_if :
    (t : ℕ) (p : OutputEvent → Bool) (l : List OutputEvent)
    → All (λ (x : OutputEvent). t ≤ x.timestamp) l
    → All (λ (x : OutputEvent). t ≤ x.timestamp) (keep_if p l)
All-keep_if t p [] h = tt
All-keep_if t p (e ∷ l) h = ground (arith, All-keep_if t p l h.1)

pub Sorted-keep_if :
    (p : OutputEvent → Bool) (l : List OutputEvent) → Sorted l → Sorted (keep_if p l)
Sorted-keep_if p [] h = tt
Sorted-keep_if p (e ∷ l) h = ground (arith, Sorted-keep_if p l h.1, All-keep_if e.timestamp p l h.0)

All-concat :
    (t : ℕ) (l : List OutputEvent) (e : OutputEvent)
    → All (λ (x : OutputEvent). t ≤ x.timestamp) l
    → t ≤ e.timestamp
    → All (λ (x : OutputEvent). t ≤ x.timestamp) (l ++ (e ∷ []))
All-concat t [] e h le = (le, tt)
All-concat t (x ∷ l) e h le = (h.0, All-concat t l e h.1 le)

pub All-le-concat :
    (t : ℕ) (l : List OutputEvent) (e : OutputEvent)
    → All (λ (x : OutputEvent). x.timestamp ≤ t) l
    → e.timestamp ≤ t
    → All (λ (x : OutputEvent). x.timestamp ≤ t) (l ++ (e ∷ []))
All-le-concat t [] e h le = (le, tt)
All-le-concat t (x ∷ l) e h le = (h.0, All-le-concat t l e h.1 le)

pub Sorted-concat :
    (l : List OutputEvent) (e : OutputEvent)
    → Sorted l
    → All (λ (x : OutputEvent). x.timestamp ≤ e.timestamp) l
    → Sorted (l ++ (e ∷ []))
Sorted-concat [] e h le = (tt, tt)
Sorted-concat (x ∷ l) e h le = (All-concat x.timestamp l e h.0 le.0, Sorted-concat l e h.1 le.1)

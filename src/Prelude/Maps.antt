-- ===== src/Prelude/Maps.antt =====
-- Go's maps as association lists. `IsMap` says that no key stands twice, which every operation
-- keeps; the laws of a write and of a removal need no such condition.
use mathlib.Core.Path.{◌≡◌, refl}
use mathlib.Core.Logic.{◌⊎◌, ◌≢◌}
use mathlib.Core.Bool.{Bool, true, false}
use mathlib.Core.Option.{Option, none, some}
use mathlib.Core.List.{List, [], ◌∷◌}
use native.Mathlib.Omega.{arith}
use telegram_remote_terminal.Prelude.Tests.{if◌then◌else◌}
use telegram_remote_terminal.Prelude.Keys.{Key, same_refl}

abbrev pub Map {ℓ κ} : Type ℓ → Type κ → Type (ℓ ⊔ κ)
Map K V = List (K × V)

-- `v, ok := m[k]` of a value that may be absent, and the test that a sweep makes on it.
abbrev pub only_if {ℓ} : {V : Type ℓ} → (V → Bool) → Option V → Option V
only_if p none = none
only_if p (some v) = if p v then some v else none

module _ {ℓ κ} {K : Type ℓ} {V : Type κ} ⦃e : Key K⦄ where
  unfoldable pub lookup : K → Map K V → Option V
  lookup k [] = none
  lookup k ((j, v) ∷ m) = if e.same j k then some v else lookup k m

  unfoldable pub insert : K → V → Map K V → Map K V
  insert k v [] = (k, v) ∷ []
  insert k v ((j, w) ∷ m) = if e.same j k then (j, v) ∷ m else (j, w) ∷ insert k v m

  -- `delete(m, k)`
  unfoldable pub remove : K → Map K V → Map K V
  remove k [] = []
  remove k ((j, v) ∷ m) =
      let rest = remove k m in elim (e.same j k) [ true ↦ rest | false ↦ (j, v) ∷ rest ]

  -- `for k, v := range m { if !p(v) { delete(m, k) } }`
  unfoldable pub retain : (V → Bool) → Map K V → Map K V
  retain p [] = []
  retain p ((j, v) ∷ m) =
      let rest = retain p m in elim (p v) [ true ↦ (j, v) ∷ rest | false ↦ rest ]

  pub lookup-insert :
      (k j : K) (v : V) (m : Map K V)
      → lookup j (insert k v m) ≡ (if e.same k j then some v else lookup j m)
  unfolding lookup insert
  lookup-insert k j v [] = refl
  lookup-insert k j v ((i, w) ∷ m) =
      ground (arith, e.same_iff k j, e.same_iff i k, e.same_iff i j, lookup-insert k j v m)

  pub lookup-remove :
      (k j : K) (m : Map K V) → lookup j (remove k m) ≡ (if e.same k j then none else lookup j m)
  unfolding lookup remove
  lookup-remove k j [] = ground arith
  lookup-remove k j ((i, w) ∷ m) =
      ground (arith, e.same_iff k j, e.same_iff i k, e.same_iff i j, lookup-remove k j m)

  abbrev pub IsMap : Map K V → Type κ
  IsMap [] = Unit
  IsMap ((k, v) ∷ m) = (lookup k m ≡ none) × IsMap m

  pub lookup-insert_self : (k : K) (v : V) (m : Map K V) → lookup k (insert k v m) ≡ some v
  lookup-insert_self k v m = simp (lookup-insert, same_refl)

  pub lookup-remove_self : (k : K) (m : Map K V) → lookup k (remove k m) ≡ none
  lookup-remove_self k m = simp (lookup-remove, same_refl)

  pub insert-IsMap : (k : K) (v : V) (m : Map K V) → IsMap m → IsMap (insert k v m)
  unfolding lookup insert
  insert-IsMap k v [] h = (refl, tt)
  insert-IsMap k v ((i, w) ∷ m) h =
      ground (arith, e.same_iff i k, e.same_iff k i, lookup-insert k i v m, insert-IsMap k v m)

  pub remove-IsMap : (k : K) (m : Map K V) → IsMap m → IsMap (remove k m)
  unfolding lookup remove
  remove-IsMap k [] h = tt
  remove-IsMap k ((i, w) ∷ m) h =
      ground (arith, e.same_iff i k, lookup-remove k i m, remove-IsMap k m)

  lookup-retain_absent :
      (p : V → Bool) (k : K) (m : Map K V) → lookup k m ≡ none → lookup k (retain p m) ≡ none
  unfolding lookup retain
  lookup-retain_absent p k [] h = refl
  lookup-retain_absent p k ((i, w) ∷ m) h = ground (arith, lookup-retain_absent p k m)

  pub lookup-retain :
      (p : V → Bool) (k : K) (m : Map K V)
      → IsMap m
      → lookup k (retain p m) ≡ only_if p (lookup k m)
  unfolding lookup retain
  lookup-retain p k [] h = refl
  lookup-retain p k ((i, w) ∷ m) h =
      ground (arith, e.same_iff i k, lookup-retain p k m h.1, lookup-retain_absent p i m)

  pub retain-IsMap : (p : V → Bool) (m : Map K V) → IsMap m → IsMap (retain p m)
  unfolding lookup retain
  retain-IsMap p [] h = tt
  retain-IsMap p ((i, w) ∷ m) h =
      ground (arith, lookup-retain_absent p i m h.0, retain-IsMap p m h.1)

  -- What a lookup found was there before the write, or is what was written.
  pub lookup-insert_cases :
      (k j : K) (v w : V) (m : Map K V)
      → lookup j (insert k v m) ≡ some w
      → ((k ≡ j) × (v ≡ w)) ⊎ (lookup j m ≡ some w)
  lookup-insert_cases k j v w m h = ground (arith, lookup-insert k j v m, e.same_iff k j)

  pub lookup-remove-some :
      (k j : K) (w : V) (m : Map K V) → lookup j (remove k m) ≡ some w → lookup j m ≡ some w
  lookup-remove-some k j w m h = ground (arith, lookup-remove k j m)

  pub lookup-retain-some :
      (p : V → Bool) (j : K) (w : V) (m : Map K V)
      → IsMap m
      → lookup j (retain p m) ≡ some w
      → (lookup j m ≡ some w) × (p w ≡ true)
  lookup-retain-some p j w m u h = ground (arith, lookup-retain p j m u)

  pub lookup-remove_ne : (k j : K) (w : V) (m : Map K V) → lookup j (remove k m) ≡ some w → k ≢ j
  lookup-remove_ne k j w m h same = ground (arith, lookup-remove k j m, (e.same_iff k j).1 same)

  pub lookup-remove_other : (k j : K) (m : Map K V) → k ≢ j → lookup j (remove k m) ≡ lookup j m
  lookup-remove_other k j m h = ground (arith, lookup-remove k j m, e.same_iff k j)

  pub lookup-insert_other :
      (k j : K) (v : V) (m : Map K V) → k ≢ j → lookup j (insert k v m) ≡ lookup j m
  lookup-insert_other k j v m h = ground (arith, lookup-insert k j v m, e.same_iff k j)

  pub remove-nil : (k : K) (m : Map K V) → m ≡ [] → remove k m ≡ []
  unfolding remove
  remove-nil k m h = rw h refl

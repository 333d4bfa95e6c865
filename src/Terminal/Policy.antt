-- ===== src/Terminal/Policy.antt =====
-- `validateCommand` of internal/terminal/manager.go: the deny and allow lists for commands.
use telegram_remote_terminal.Prelude.{
  ◌≡◌, ◌≢◌, ◌↔◌, ◌⊎◌, refl, inl, inr, Bool, true, false, not, ◌&&◌, List, [], ◌∷◌, Bytes, Option,
  none, some, arith, if◌then◌else◌, Any, Bool-cases, Option-cases, subst,
}
use telegram_remote_terminal.Text.{trim_space, to_lower, contains, has_prefix, is_empty}
use telegram_remote_terminal.Text.Search.{Within, Begins, contains_iff, has_prefix_iff}

pub data CommandError : Type 0 where
  denied : (rule : Bytes) → CommandError
  not_allowed : CommandError

-- The first rule of the deny list that stands in the lowered command.
unfoldable pub first_denied : (Bytes → Bytes) → Bytes → List Bytes → Option Bytes
first_denied fold lower [] = none
first_denied fold lower (deny ∷ rest) =
    let d = trim_space (to_lower fold deny) in
    let next = first_denied fold lower rest in
    if is_empty d then next else if contains lower d then some deny else next

-- The loop over the allow list, which returns on the first prefix that matches.
unfoldable pub any_prefix : Bytes → List Bytes → Bool
any_prefix command [] = false
any_prefix command (prefix ∷ rest) =
    let p = trim_space prefix in
    let next = any_prefix command rest in
    if is_empty p then next else if has_prefix command p then true else next

abbrev check_allow : Bytes → List Bytes → Option CommandError
check_allow command [] = none
check_allow command (p ∷ ps) = if any_prefix command (p ∷ ps) then none else some not_allowed

-- `none` is a nil error.
unfoldable pub validate_command :
    (Bytes → Bytes) → (deny allow : List Bytes) → Bytes → Option CommandError
unfolding first_denied any_prefix
validate_command fold deny allow command = elim (first_denied fold (to_lower fold command) deny) [
  | some rule ↦ some (denied rule)
  | none ↦ check_allow command allow
]

module _ (fold : Bytes → Bytes) (command : Bytes) where
  -- A rule that is not blank stands in the command, whatever their case.
  abbrev pub Denies : Bytes → Type 0
  Denies rule =
      (trim_space (to_lower fold rule) ≢ [])
      × Within (trim_space (to_lower fold rule)) (to_lower fold command)

  -- A prefix that is not blank begins the command.
  abbrev pub Allows : Bytes → Type 0
  Allows prefix = (trim_space prefix ≢ []) × Begins (trim_space prefix) command

is_empty_iff : (s : Bytes) → (is_empty s ≡ true) ↔ (s ≡ [])
is_empty_iff [] = ground arith
is_empty_iff (c ∷ s) = ground arith

not-Any-cons :
    (P : Bytes → Type 0) (x : Bytes) (xs : List Bytes) → ¬ P x → ¬ Any P xs → ¬ Any P (x ∷ xs)
not-Any-cons P x xs p q (inl h) = p h
not-Any-cons P x xs p q (inr h) = q h

module _ (fold : Bytes → Bytes) (command : Bytes) where
  -- The two tests that the loops make of one entry.
  abbrev hits : Bytes → Bool
  hits rule =
      not (is_empty (trim_space (to_lower fold rule)))
      && contains (to_lower fold command) (trim_space (to_lower fold rule))

  abbrev admits : Bytes → Bool
  admits prefix = not (is_empty (trim_space prefix)) && has_prefix command (trim_space prefix)

  hits_iff : (rule : Bytes) → (hits rule ≡ true) ↔ Denies fold command rule
  hits_iff rule = ground (
    arith,
    is_empty_iff (trim_space (to_lower fold rule)),
    contains_iff (to_lower fold command) (trim_space (to_lower fold rule)),
  )

  admits_iff : (prefix : Bytes) → (admits prefix ≡ true) ↔ Allows fold command prefix
  admits_iff prefix =
      ground (arith, is_empty_iff (trim_space prefix), has_prefix_iff command (trim_space prefix))

  -- The loop stops at the first rule that denies the command.
  FirstDenied : List Bytes → Option Bytes → Type 0
  FirstDenied rules none = ¬ Any (Denies fold command) rules
  FirstDenied rules (some rule) = Any (λ r. (r ≡ rule) × Denies fold command r) rules

  FirstDenied-later :
      (r : Bytes) (rest : List Bytes) (o : Option Bytes)
      → ¬ Denies fold command r
      → FirstDenied rest o
      → FirstDenied (r ∷ rest) o
  unfolding FirstDenied
  FirstDenied-later r rest none miss h = not-Any-cons (Denies fold command) r rest miss h
  FirstDenied-later r rest (some rule) miss h = inr h

  first_denied_hit :
      (r : Bytes) (rest : List Bytes)
      → hits r ≡ true
      → first_denied fold (to_lower fold command) (r ∷ rest) ≡ some r
  unfolding first_denied
  first_denied_hit r rest h = ground arith

  first_denied_miss :
      (r : Bytes) (rest : List Bytes)
      → hits r ≡ false
      → first_denied fold (to_lower fold command) (r ∷ rest)
        ≡ first_denied fold (to_lower fold command) rest
  unfolding first_denied
  first_denied_miss r rest h = ground arith

  not_of_false : (b : Bool) (P : Type 0) → (b ≡ true) ↔ P → b ≡ false → ¬ P
  not_of_false b P iff e p = cc (iff.1 p, e)

  first_denied-FirstDenied :
      (rules : List Bytes) → FirstDenied rules (first_denied fold (to_lower fold command) rules)
  unfolding FirstDenied
  first_denied-FirstDenied [] = unfold first_denied in λ h. h
  first_denied-FirstDenied (r ∷ rest) = elim (Bool-cases (hits r)) [
    | inl hit ↦ rw (first_denied_hit r rest hit) (inl (refl, (hits_iff r).0 hit))
    | inr miss ↦ rw (first_denied_miss r rest miss) (
        FirstDenied-later r rest (first_denied fold (to_lower fold command) rest)
          (not_of_false (hits r) (Denies fold command r) (hits_iff r) miss)
          (first_denied-FirstDenied rest))
  ]

  any_prefix_step :
      (p : Bytes) (rest : List Bytes)
      → any_prefix command (p ∷ rest) ≡ (if admits p then true else any_prefix command rest)
  unfolding any_prefix
  any_prefix_step p rest = ground arith

  prefix_later :
      (p : Bytes) (rest : List Bytes)
      → admits p ≡ false
      → (Any (Allows fold command) rest → any_prefix command rest ≡ true)
      → Any (Allows fold command) (p ∷ rest)
      → any_prefix command rest ≡ true
  prefix_later p rest miss ih (inl here) = cc ((admits_iff p).1 here, miss)
  prefix_later p rest miss ih (inr there) = ih there

  any_prefix_iff :
      (allow : List Bytes) → (any_prefix command allow ≡ true) ↔ Any (Allows fold command) allow
  any_prefix_iff [] = (unfold any_prefix in λ h. cc, λ h. absurd h)
  any_prefix_iff (p ∷ rest) = elim (Bool-cases (admits p)) [
    | inl hit ↦ (λ _. inl ((admits_iff p).0 hit), λ _. rw (any_prefix_step p rest, hit))
    | inr miss ↦ (
      λ h. inr ((any_prefix_iff rest).0 (rw (any_prefix_step p rest, miss) at h)),
      λ h. rw (any_prefix_step p rest, miss) (prefix_later p rest miss (any_prefix_iff rest).1 h),
    )
  ]

  -- An empty allow list admits every command; any other, those that one of its prefixes begins.
  abbrev pub Admitted : List Bytes → Type 0
  Admitted allow = (allow ≡ []) ⊎ Any (Allows fold command) allow

  shut_out :
      (p : Bytes) (ps : List Bytes) → any_prefix command (p ∷ ps) ≡ false → ¬ Admitted (p ∷ ps)
  shut_out p ps miss (inl e) = cc
  shut_out p ps miss (inr h) = cc ((any_prefix_iff (p ∷ ps)).1 h, miss)

  check_allow_iff : (allow : List Bytes) → (check_allow command allow ≡ none) ↔ Admitted allow
  check_allow_iff [] = (λ _. inl refl, λ _. refl)
  check_allow_iff (p ∷ ps) = elim (Bool-cases (any_prefix command (p ∷ ps))) [
    | inl hit ↦ (λ _. inr ((any_prefix_iff (p ∷ ps)).0 hit), λ _. rw hit)
    | inr miss ↦ (λ h. cc (rw miss at h), λ h. absurd (shut_out p ps miss h))
  ]

  Any-Denies :
      (rule : Bytes) (rules : List Bytes)
      → Any (λ r. (r ≡ rule) × Denies fold command r) rules
      → Any (Denies fold command) rules
  Any-Denies rule (r ∷ rest) (inl (_, h)) = inl h
  Any-Denies rule (r ∷ rest) (inr h) = inr (Any-Denies rule rest h)
  Any-Denies rule [] h = absurd h

  -- `validateCommand` accepts a command exactly if no deny rule that is not blank stands in it, both
  -- lowered, and the allow list is empty or has an entry that is not blank and begins it.
  pub validate_command_iff :
      (deny allow : List Bytes)
      → (validate_command fold deny allow command ≡ none)
        ↔ ((¬ Any (Denies fold command) deny) × Admitted allow)
  unfolding validate_command FirstDenied
  validate_command_iff deny allow =
      let first = first_denied-FirstDenied deny in
      elim (Option-cases (first_denied fold (to_lower fold command) deny)) [
        | inl passed ↦ (
          λ h. (rw passed at first, (check_allow_iff allow).0 (rw (passed, validate_command) at h)),
          λ (_, admitted). rw (passed, validate_command) ((check_allow_iff allow).1 admitted),
        )
        | inr (rule, found) ↦ (
          λ h. cc (rw (found, validate_command) at h),
          λ (clear, _). absurd (clear (Any-Denies rule deny (rw found at first))),
        )
      ]

  -- A refusal by the deny list names a rule of the list that does stand in the command.
  validate_command-denied :
      (deny allow : List Bytes) (rule : Bytes)
      → validate_command fold deny allow command ≡ some (denied rule)
      → Any (λ r. (r ≡ rule) × Denies fold command r) deny
  unfolding validate_command FirstDenied
  validate_command-denied deny allow rule h =
      let first = first_denied-FirstDenied deny in
      elim (Option-cases (first_denied fold (to_lower fold command) deny)) [
        | inl passed ↦ absurd (ground (arith, passed, h))
        | inr (r, found) ↦
            let same : r ≡ rule = ground (arith, found, h) in
            subst (λ x. Any (λ y. (y ≡ x) × Denies fold command y) deny) same (rw found at first)
      ]

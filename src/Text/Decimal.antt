-- ===== src/Text/Decimal.antt =====
-- Go's `strconv.ParseInt` in base 10 with 64 bits, which `strconv.Atoi` is too, and its range.
use telegram_remote_terminal.Prelude.{
  ℕ, zero, suc, ◌+◌, ◌-◌, ◌*◌, ◌^◌, ◌≤◌, ◌≡◌, refl, ℤ, pos, negsuc, Bool, true, false, ◌&&◌, [],
  ◌∷◌, Bytes, Option, none, some, arith, leb, ◌==◌, if◌then◌else◌, codes, Bool-cases, inl, inr,
}

-- The number that decimal digits spell behind `n`.
unfoldable pub digits : Bytes → ℕ → Option ℕ
digits [] n = some n
digits (c ∷ s) n =
    let rest = digits s (n * 10 + (c - b'0')) in if leb b'0' c && leb c b'9' then rest else none

abbrev at_least_one : Bytes → Option ℕ
at_least_one [] = none
at_least_one (c ∷ s) = digits (c ∷ s) 0

abbrev pub max_int64 : ℕ
max_int64 = 2 ^ 63 - 1

abbrev positive : Option ℕ → Option ℤ
positive none = none
positive (some n) = if leb n max_int64 then some (pos n) else none

abbrev negative : Option ℕ → Option ℤ
negative none = none
negative (some zero) = some (pos 0)
negative (some (suc n)) = if leb n max_int64 then some (negsuc n) else none

unfoldable pub parse_int64 : Bytes → Option ℤ
unfolding digits
parse_int64 [] = none
parse_int64 (c ∷ s) =
    if c == b'-'
    then negative (at_least_one s)
    else if c == b'+'
    then positive (at_least_one s)
    else positive (digits (c ∷ s) 0)

-- the values of an int64
abbrev pub IsInt64 : ℤ → Type 0
IsInt64 (pos n) = n ≤ max_int64
IsInt64 (negsuc n) = n ≤ max_int64

positive-IsInt64 : (o : Option ℕ) (z : ℤ) → positive o ≡ some z → IsInt64 z
positive-IsInt64 none z h = cc
positive-IsInt64 (some n) (pos m) h = ground arith
positive-IsInt64 (some n) (negsuc m) h = ground arith

negative-IsInt64 : (o : Option ℕ) (z : ℤ) → negative o ≡ some z → IsInt64 z
negative-IsInt64 none z h = cc
negative-IsInt64 (some zero) (pos m) h = ground arith
negative-IsInt64 (some zero) (negsuc m) h = ground arith
negative-IsInt64 (some (suc n)) (pos m) h = ground arith
negative-IsInt64 (some (suc n)) (negsuc m) h = ground arith

taken : (b : Bool) (x y : Option ℤ) (z : ℤ) → b ≡ true → (if b then x else y) ≡ some z → x ≡ some z
taken b x y z e h = rw e at h

skipped :
    (b : Bool) (x y : Option ℤ) (z : ℤ) → b ≡ false → (if b then x else y) ≡ some z → y ≡ some z
skipped b x y z e h = rw e at h

pub parse_int64-IsInt64 : (s : Bytes) (z : ℤ) → parse_int64 s ≡ some z → IsInt64 z
unfolding parse_int64
parse_int64-IsInt64 [] z h = cc
parse_int64-IsInt64 (c ∷ s) z h = elim (Bool-cases (c == b'-')) [
  | inl minus ↦ negative-IsInt64 (at_least_one s) z (taken _ _ _ z minus h)
  | inr other ↦ elim (Bool-cases (c == b'+')) [
    | inl plus ↦ positive-IsInt64 (at_least_one s) z (taken _ _ _ z plus (skipped _ _ _ z other h))
    | inr digit ↦
        positive-IsInt64 (digits (c ∷ s) 0) z (skipped _ _ _ z digit (skipped _ _ _ z other h))
  ]
]

parse_int64_tests :
    (parse_int64 (codes "-42") ≡ some (negsuc 41))
    × (parse_int64 (codes "+7") ≡ some (pos 7))
    × (parse_int64 (codes "9223372036854775808") ≡ none)
    × (parse_int64 (codes "-9223372036854775808") ≡ some (negsuc max_int64))
    × (parse_int64 (codes "1_0") ≡ none)
    × (parse_int64 (codes "-") ≡ none)
unfolding parse_int64
parse_int64_tests = (refl, refl, refl, refl, refl, refl)

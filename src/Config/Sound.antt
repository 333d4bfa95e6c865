-- ===== src/Config/Sound.antt =====
-- What the values of internal/config/config.go keep to, whatever the environment has.
use telegram_remote_terminal.Prelude.{
  ℤ, ◌≡◌, inl, inr, false, List, [], ◌∷◌, Bytes, nonpos, All, Bool-cases, Option-cases,
}
use telegram_remote_terminal.Text.{trim_space, is_empty}
use telegram_remote_terminal.Text.Decimal.{parse_int64, IsInt64, parse_int64-IsInt64}
use telegram_remote_terminal.Config.{get_with_default, must_int, kept_parts, parse_string_list}

abbrev pub IsGiven : Bytes → Type 0
IsGiven text = is_empty text ≡ false

pub get_with_default-IsGiven :
    (raw fallback : Bytes) → IsGiven fallback → IsGiven (get_with_default raw fallback)
unfolding get_with_default
get_with_default-IsGiven raw fallback h = elim (Bool-cases (is_empty (trim_space raw))) [
  | inl blank ↦ rw (blank, get_with_default) h
  | inr there ↦ rw (get_with_default, there) there
]

kept_parts-IsGiven : (parts : List Bytes) → All IsGiven (kept_parts parts)
unfolding kept_parts
kept_parts-IsGiven [] = tt
kept_parts-IsGiven (p ∷ parts) = elim (Bool-cases (is_empty (trim_space p))) [
  | inl blank ↦ rw (blank, kept_parts) (kept_parts-IsGiven parts)
  | inr there ↦ rw (kept_parts, there) (there, kept_parts-IsGiven parts)
]

pub parse_string_list-IsGiven : (raw : Bytes) → All IsGiven (parse_string_list raw)
unfolding parse_string_list
parse_string_list-IsGiven raw = kept_parts-IsGiven _

-- a positive int of 64 bits
abbrev pub IsCount : ℤ → Type 0
IsCount z = (nonpos z ≡ false) × IsInt64 z

pub must_int-IsCount :
    (raw : Bytes) (fallback : ℤ) → IsCount fallback → IsCount (must_int raw fallback)
unfolding must_int
must_int-IsCount raw fallback h = elim (Bool-cases (is_empty (trim_space raw))) [
  | inl blank ↦ rw (blank, must_int) h
  | inr there ↦ elim (Option-cases (parse_int64 (trim_space raw))) [
    | inl broken ↦ rw (must_int, there, broken) h
    | inr (z, parsed) ↦ elim (Bool-cases (nonpos z)) [
      | inl low ↦ rw (must_int, there, parsed, low) h
      | inr high ↦
          rw (must_int, there, parsed, high) (high, parse_int64-IsInt64 (trim_space raw) z parsed)
    ]
  ]
]

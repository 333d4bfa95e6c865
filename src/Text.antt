-- ===== src/Text.antt =====
-- What the program uses of Go's `strings` package and of `len`, over byte strings. `TrimSpace`
-- knows the UTF-8 encodings of every space of Unicode. `ToLower` has Go's ASCII path; its table for
-- other text is generated code, and comes in as the parameter `fold`.
pub mod Trim
pub mod Search
pub mod Base64
pub mod Decimal
use telegram_remote_terminal.Prelude.{
  ℕ, zero, suc, ◌+◌, Bool, true, false, ◌&&◌, ◌||◌, List, [], ◌∷◌, ◌++◌, map, reverse, Bytes, ltb,
  leb, ◌==◌, if◌then◌else◌, all_of, eq_bytes,
}

abbrev pub ascii_space : ℕ → Bool
ascii_space c = (leb 9 c && leb c 13) || c == 32

-- U+0085 and U+00A0
abbrev pub space_2 : ℕ → ℕ → Bool
space_2 a b = a == 0xc2 && (b == 0x85 || b == 0xa0)

-- U+1680, U+2000 to U+200A, U+2028, U+2029, U+202F, U+205F and U+3000
abbrev pub space_3 : ℕ → ℕ → ℕ → Bool
space_3 a b c =
    (a == 0xe1 && b == 0x9a && c == 0x80)
    || (a == 0xe2
        && ((b == 0x80 && ((leb 0x80 c && leb c 0x8a) || c == 0xa8 || c == 0xa9 || c == 0xaf))
            || (b == 0x81 && c == 0x9f)))
    || (a == 0xe3 && b == 0x80 && c == 0x80)

-- The bytes of the space that a text begins with, or 0.
unfoldable pub first_space : Bytes → ℕ
first_space [] = 0
first_space (a ∷ []) = if ascii_space a then 1 else 0
first_space (a ∷ b ∷ []) = if ascii_space a then 1 else if space_2 a b then 2 else 0
first_space (a ∷ b ∷ c ∷ s) =
    if ascii_space a then 1 else if space_2 a b then 2 else if space_3 a b c then 3 else 0

-- The same for the space that a text ends with; the text is given last byte first.
unfoldable pub last_space : Bytes → ℕ
last_space [] = 0
last_space (a ∷ []) = if ascii_space a then 1 else 0
last_space (a ∷ b ∷ []) = if ascii_space a then 1 else if space_2 b a then 2 else 0
last_space (a ∷ b ∷ c ∷ s) =
    if ascii_space a then 1 else if space_2 b a then 2 else if space_3 c b a then 3 else 0

-- Drops spaces from the front; `left` counts the bytes that the current space still has.
unfoldable pub strip : (Bytes → ℕ) → ℕ → Bytes → Bytes
strip width left [] = []
strip width (suc left) (a ∷ s) = strip width left s
strip width zero (a ∷ s) = elim (width (a ∷ s)) [ zero ↦ a ∷ s | suc left ↦ strip width left s ]

unfoldable pub trim_left : Bytes → Bytes
unfolding strip first_space
trim_left s = strip first_space 0 s

unfoldable pub trim_right : Bytes → Bytes
unfolding strip last_space
trim_right s = reverse (strip last_space 0 (reverse s))

-- `strings.TrimSpace`
unfoldable pub trim_space : Bytes → Bytes
unfolding trim_left trim_right
trim_space s = trim_right (trim_left s)

abbrev pub is_empty : Bytes → Bool
is_empty [] = true
is_empty (c ∷ s) = false

abbrev pub is_ascii : Bytes → Bool
is_ascii = all_of (λ c. ltb c 0x80)

abbrev pub lower_byte : ℕ → ℕ
lower_byte c = if leb b'A' c && leb c b'Z' then c + 32 else c

-- `strings.ToLower`
unfoldable pub to_lower : (Bytes → Bytes) → Bytes → Bytes
to_lower fold s = if is_ascii s then map lower_byte s else fold s

-- `strings.HasPrefix`
unfoldable pub has_prefix : Bytes → Bytes → Bool
has_prefix s [] = true
has_prefix [] (p ∷ ps) = false
has_prefix (c ∷ s) (p ∷ ps) = c == p && has_prefix s ps

skip : Bytes → Bytes → Bytes
skip [] s = s
skip (x ∷ p) [] = []
skip (x ∷ p) (c ∷ s) = skip p s

-- `strings.TrimPrefix`
unfoldable pub trim_prefix : Bytes → Bytes → Bytes
unfolding has_prefix skip
trim_prefix s p = if has_prefix s p then skip p s else s

-- `strings.Contains`
unfoldable pub contains : Bytes → Bytes → Bool
unfolding has_prefix
contains [] d = has_prefix [] d
contains (c ∷ s) d = has_prefix (c ∷ s) d || contains s d

into : ℕ → List Bytes → List Bytes
into c [] = (c ∷ []) ∷ []
into c (p ∷ ps) = (c ∷ p) ∷ ps

-- `strings.Split` at a separator of one byte
unfoldable pub split : ℕ → Bytes → List Bytes
unfolding into
split sep [] = [] ∷ []
split sep (c ∷ s) = let rest = split sep s in if c == sep then [] ∷ rest else into c rest

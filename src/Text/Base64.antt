-- ===== src/Text/Base64.antt =====
-- Go's `base64.StdEncoding`: `EncodeToString` and `DecodeString`, which skips line breaks, wants the
-- padding and does not look at the bits that a last symbol has too many.
use telegram_remote_terminal.Prelude.{
  ℕ, ◌+◌, ◌-◌, ◌*◌, ◌/◌, ◌%◌, ◌<◌, ◌≡◌, refl, Bool, true, false, not, ◌&&◌, ◌||◌, [], ◌∷◌, Bytes,
  Option, none, some, arith, ap, ltb, leb, ◌==◌, if◌then◌else◌, keep_if, All, codes,
}

-- The symbol of six bits.
abbrev pub symbol : ℕ → ℕ
symbol v =
    if ltb v 26
    then b'A' + v
    else if ltb v 52
    then b'a' + (v - 26)
    else if ltb v 62
    then b'0' + (v - 52)
    else if v == 62
    then b'+'
    else b'/'

abbrev pub six_bits : ℕ → Option ℕ
six_bits c =
    if leb b'A' c && leb c b'Z'
    then some (c - b'A')
    else if leb b'a' c && leb c b'z'
    then some (c - b'a' + 26)
    else if leb b'0' c && leb c b'9'
    then some (c - b'0' + 52)
    else if c == b'+'
    then some 62
    else if c == b'/'
    then some 63
    else none

unfoldable pub base64_encode : Bytes → Bytes
base64_encode [] = []
base64_encode (a ∷ []) = symbol (a / 4) ∷ symbol (a % 4 * 16) ∷ b'=' ∷ b'=' ∷ []
base64_encode (a ∷ b ∷ []) =
    symbol (a / 4) ∷ symbol (a % 4 * 16 + b / 16) ∷ symbol (b % 16 * 4) ∷ b'=' ∷ []
base64_encode (a ∷ b ∷ c ∷ s) =
    symbol (a / 4)
    ∷ symbol (a % 4 * 16 + b / 16)
    ∷ symbol (b % 16 * 4 + c / 64)
    ∷ symbol (c % 64)
    ∷ base64_encode s

infixl 5 ◌>>=◌
abbrev ◌>>=◌ {ℓ κ} : {A : Type ℓ} {B : Type κ} → Option A → (A → Option B) → Option B
none >>= f = none
some a >>= f = f a

abbrev last_one : ℕ → ℕ → Option Bytes
last_one p q = do v ← six_bits p; w ← six_bits q; some ((v * 4 + w / 16) ∷ [])

abbrev last_two : ℕ → ℕ → ℕ → Option Bytes
last_two p q r = do
  v ← six_bits p
  w ← six_bits q
  x ← six_bits r
  some ((v * 4 + w / 16) ∷ (w % 16 * 16 + x / 4) ∷ [])

abbrev three : ℕ → ℕ → ℕ → ℕ → Option Bytes → Option Bytes
three p q r t rest = do
  v ← six_bits p
  w ← six_bits q
  x ← six_bits r
  y ← six_bits t
  s ← rest
  some ((v * 4 + w / 16) ∷ (w % 16 * 16 + x / 4) ∷ (x % 4 * 64 + y) ∷ s)

abbrev nothing_after : Bytes → Option Bytes → Option Bytes
nothing_after [] out = out
nothing_after (c ∷ s) out = none

-- Four symbols at a time; only the last four may be padded.
unfoldable pub quads : Bytes → Option Bytes
quads [] = some []
quads (p ∷ []) = none
quads (p ∷ q ∷ []) = none
quads (p ∷ q ∷ r ∷ []) = none
quads (p ∷ q ∷ r ∷ t ∷ s) =
    let rest = quads s in
    if t == b'='
    then nothing_after s (if r == b'=' then last_one p q else last_two p q r)
    else three p q r t rest

abbrev no_break : ℕ → Bool
no_break c = not (c == b'\n' || c == b'\r')

unfoldable pub base64_decode : Bytes → Option Bytes
unfolding quads
base64_decode s = quads (keep_if no_break s)

abbrev pub IsByte : ℕ → Type 0
IsByte b = b < 256

six_bits-symbol : (v : ℕ) → v < 64 → six_bits (symbol v) ≡ some v
six_bits-symbol v h = ground arith

symbol_kept : (v : ℕ) → v < 64 → (no_break (symbol v) ≡ true) × ((symbol v == b'=') ≡ false)
symbol_kept v h = (ground arith, ground arith)

-- Three bytes from the four groups of six bits that they were cut into.
joined_1 : (a b : ℕ) → a < 256 → b < 256 → a / 4 * 4 + (a % 4 * 16 + b / 16) / 16 ≡ a
joined_1 a b ha hb = omega arith

joined_2 :
    (a b c : ℕ)
    → b < 256
    → c < 256
    → (a % 4 * 16 + b / 16) % 16 * 16 + (b % 16 * 4 + c / 64) / 4 ≡ b
joined_2 a b c hb hc = omega arith

joined_3 : (b c : ℕ) → c < 256 → (b % 16 * 4 + c / 64) % 4 * 64 + c % 64 ≡ c
joined_3 b c hc = omega arith

quads-encode : (s : Bytes) → All IsByte s → quads (base64_encode s) ≡ some s
unfolding quads base64_encode
quads-encode [] h = refl
quads-encode (a ∷ []) h =
    rw (six_bits-symbol (a / 4) (omega (arith, h.0)), six_bits-symbol (a % 4 * 16) (omega arith))
      (ap (λ x. some (x ∷ [])) (omega (arith, h.0)))
quads-encode (a ∷ b ∷ []) h =
    rw
      (
        (symbol_kept (b % 16 * 4) (omega arith)).1,
        six_bits-symbol (a / 4) (omega (arith, h.0)),
        six_bits-symbol (a % 4 * 16 + b / 16) (omega (arith, h.1.0)),
        six_bits-symbol (b % 16 * 4) (omega arith),
      )
      (rw (joined_1 a b h.0 h.1.0) (ap (λ x. some (a ∷ x ∷ [])) (omega (arith, h.1.0))))
quads-encode (a ∷ b ∷ c ∷ s) h =
    rw
      (
        (symbol_kept (c % 64) (omega arith)).1,
        six_bits-symbol (a / 4) (omega (arith, h.0)),
        six_bits-symbol (a % 4 * 16 + b / 16) (omega (arith, h.1.0)),
        six_bits-symbol (b % 16 * 4 + c / 64) (omega (arith, h.1.1.0)),
        six_bits-symbol (c % 64) (omega arith),
        quads-encode s h.1.1.1,
      )
      (rw (joined_1 a b h.0 h.1.0, joined_2 a b c h.1.0 h.1.1.0, joined_3 b c h.1.1.0) refl)

-- The symbols of an encoding, and of nothing else: no line break and no colon is among them.
abbrev pub IsSymbol : ℕ → Type 0
IsSymbol c = (no_break c ≡ true) × ((c == b':') ≡ false)

symbol-IsSymbol : (v : ℕ) → v < 64 → IsSymbol (symbol v)
symbol-IsSymbol v h = (ground arith, ground arith)

pub base64_encode-IsSymbol : (s : Bytes) → All IsByte s → All IsSymbol (base64_encode s)
unfolding base64_encode
base64_encode-IsSymbol [] h = tt
base64_encode-IsSymbol (a ∷ []) h = (
  symbol-IsSymbol (a / 4) (omega (arith, h.0)),
  (symbol-IsSymbol (a % 4 * 16) (omega arith), ((refl, refl), ((refl, refl), tt))),
)
base64_encode-IsSymbol (a ∷ b ∷ []) h = (
  symbol-IsSymbol (a / 4) (omega (arith, h.0)),
  (
    symbol-IsSymbol (a % 4 * 16 + b / 16) (omega (arith, h.1.0)),
    (symbol-IsSymbol (b % 16 * 4) (omega arith), ((refl, refl), tt)),
  ),
)
base64_encode-IsSymbol (a ∷ b ∷ c ∷ s) h = (
  symbol-IsSymbol (a / 4) (omega (arith, h.0)),
  (
    symbol-IsSymbol (a % 4 * 16 + b / 16) (omega (arith, h.1.0)),
    (
      symbol-IsSymbol (b % 16 * 4 + c / 64) (omega (arith, h.1.1.0)),
      (symbol-IsSymbol (c % 64) (omega arith), base64_encode-IsSymbol s h.1.1.1),
    ),
  ),
)

unbroken : (s : Bytes) → All IsSymbol s → keep_if no_break s ≡ s
unbroken [] h = refl
unbroken (c ∷ s) h = ground (arith, unbroken s h.1, h.0.0)

-- What was encoded is decoded again.
pub base64_decode-encode : (s : Bytes) → All IsByte s → base64_decode (base64_encode s) ≡ some s
unfolding base64_decode
base64_decode-encode s h =
    rw (unbroken (base64_encode s) (base64_encode-IsSymbol s h)) (quads-encode s h)

encode_test : base64_encode (codes "light w") ≡ codes "bGlnaHQgdw=="
unfolding base64_encode
encode_test = refl

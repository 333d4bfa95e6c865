-- ===== src/Web/Random.antt =====
-- Tokens from crypto/rand: `newToken` of internal/webterm/tokens.go and `newAuthToken` of auth.go.
-- What `rand.Read` puts into the buffer, or its failure, is an argument.
use telegram_remote_terminal.Text.Trim.{IsPlain}
use telegram_remote_terminal.Prelude.{
  ℕ, ◌+◌, ◌-◌, ◌/◌, ◌%◌, ◌<◌, ◌≡◌, refl, ◌≢◌, [], ◌∷◌, Bytes, Option, none, some, arith, ltb,
  if◌then◌else◌, All,
}

-- A digit of `hex.EncodeToString`.
abbrev hex_digit : ℕ → ℕ
hex_digit n = if ltb n 10 then b'0' + n else b'a' + (n - 10)

unfoldable pub hex_encode : Bytes → Bytes
hex_encode [] = []
hex_encode (b ∷ bs) = hex_digit (b / 16) ∷ hex_digit (b % 16) ∷ hex_encode bs

unfoldable pub new_token : Option Bytes → Option Bytes
unfolding hex_encode
new_token none = none
new_token (some buf) = some (hex_encode buf)

unfoldable pub new_auth_token : Option Bytes → Option Bytes
unfolding hex_encode
new_auth_token none = none
new_auth_token (some buf) = some (hex_encode buf)

abbrev pub IsByte : ℕ → Type 0
IsByte b = b < 256

hex_digit_injective : (m n : ℕ) → m < 16 → n < 16 → hex_digit m ≡ hex_digit n → m ≡ n
hex_digit_injective m n hm hn e = ground arith

same_byte : (a b : ℕ) → a < 256 → b < 256 → a / 16 ≡ b / 16 → a % 16 ≡ b % 16 → a ≡ b
same_byte a b ha hb q r = omega arith

head_eq : {a b : ℕ} {s t : Bytes} → a ∷ s ≡ b ∷ t → (a ≡ b) × (s ≡ t)
head_eq e = (cc, cc)

pub hex_encode_injective :
    (s t : Bytes) → All IsByte s → All IsByte t → hex_encode s ≡ hex_encode t → s ≡ t
unfolding hex_encode
hex_encode_injective [] [] hs ht e = refl
hex_encode_injective [] (b ∷ t) hs ht e = cc
hex_encode_injective (a ∷ s) [] hs ht e = cc
hex_encode_injective (a ∷ s) (b ∷ t) hs ht e =
    let (high, rest) = head_eq e in
    let (low, tail) = head_eq rest in
    ground (
      arith,
      same_byte a b hs.0 ht.0
          (hex_digit_injective (a / 16) (b / 16) (omega arith) (omega arith) high)
          (hex_digit_injective (a % 16) (b % 16) (omega arith) (omega arith) low),
      hex_encode_injective s t hs.1 ht.1 tail,
    )

pub hex_encode-ne-nil : (s : Bytes) → s ≢ [] → hex_encode s ≢ []
unfolding hex_encode
hex_encode-ne-nil [] h = absurd (h refl)
hex_encode-ne-nil (b ∷ s) h = cc

hex_digit-IsPlain : (n : ℕ) → n < 16 → IsPlain (hex_digit n)
hex_digit-IsPlain n h = ground arith

-- A drawn token has no spaces, so a cookie that carries it is trimmed to itself.
pub hex_encode-IsPlain : (s : Bytes) → All IsByte s → All IsPlain (hex_encode s)
unfolding hex_encode
hex_encode-IsPlain [] h = tt
hex_encode-IsPlain (b ∷ s) h = (
  hex_digit-IsPlain (b / 16) (omega (arith, h.0)),
  (hex_digit-IsPlain (b % 16) (omega arith), hex_encode-IsPlain s h.1),
)

some_eq : {s t : Bytes} → some s ≡ some t → s ≡ t
some_eq e = cc

-- Two draws of bytes make `newToken` give the same token only if they are the same.
new_token_injective :
    (s t : Bytes) → All IsByte s → All IsByte t → new_token (some s) ≡ new_token (some t) → s ≡ t
unfolding new_token
new_token_injective s t hs ht e = hex_encode_injective s t hs ht (some_eq e)

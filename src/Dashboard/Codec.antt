-- ===== src/Dashboard/Codec.antt =====
-- internal/webterm/state_crypto.go. The authenticated cipher that `newStateCodec` makes of a key
-- (SHA-256, AES and GCM of Go's crypto packages) is the interface `Aead`; a nil codec is `none`.
pub mod RoundTrip
use telegram_remote_terminal.Prelude.{
  ℕ, ◌<◌, ◌≡◌, ◌≢◌, refl, ◌∙◌, ap, Bool, true, false, [], ◌∷◌, ◌++◌, Bytes, codes, Option, none,
  some, Result, ok, err, arith, if◌then◌else◌, ◌==◌, length, All, append_assoc, Bool-cases,
}
use telegram_remote_terminal.Text.{trim_space, is_empty, has_prefix, trim_prefix}
use telegram_remote_terminal.Text.Search.{has_prefix-append}
use telegram_remote_terminal.Text.Base64.{
  base64_encode, base64_decode, base64_decode-encode, IsSymbol, base64_encode-IsSymbol, IsByte,
}

-- `cipher.AEAD` of a key, with what Go documents of it: `Open` gives back what `Seal` was given, if
-- the nonce is the same and has the size that the cipher wants.
pub record Aead : Type 0 where
  pub nonce_size : ℕ
  pub seal : (nonce plain : Bytes) → Bytes
  pub unseal : (nonce sealed : Bytes) → Option Bytes
  pub seal-IsByte : (nonce plain : Bytes) → All IsByte plain → All IsByte (seal nonce plain)
  pub unseal-seal :
      (nonce plain : Bytes)
      → length nonce ≡ nonce_size
      → unseal nonce (seal nonce plain) ≡ some plain

pub data KeyError : Type 0 where
  key_not_base64 key_empty : KeyError

-- `newStateCodec`; `aead_of` is the cipher of the decoded key.
unfoldable pub new_state_codec : (Bytes → Aead) → Bytes → Result KeyError (Option Aead)
new_state_codec aead_of raw_key =
    let key = trim_space raw_key in
    if is_empty key then ok none else elim (base64_decode key) [
      | none ↦ err key_not_base64
      | some decoded ↦ if is_empty decoded then err key_empty else ok (some (aead_of decoded))
    ]

abbrev pub state_enc_prefix : Bytes
state_enc_prefix = codes "enc:v1:"

-- The text that is stored for a nonce and what was sealed with it.
abbrev pub sealed_text : Bytes → Bytes → Bytes
sealed_text nonce sealed =
    state_enc_prefix ++ (base64_encode nonce ++ (b':' ∷ base64_encode sealed))

-- `Encrypt`; `rand` is what `io.ReadFull` put into the nonce, and `none` its failure.
unfoldable pub encrypt : Option Aead → Option Bytes → Bytes → Option Bytes
encrypt none rand plain = some plain
encrypt (some a) none plain = none
encrypt (some a) (some nonce) plain = some (sealed_text nonce (a.seal nonce plain))

-- `Decrypt` fails in one of these ways; `bad_nonce` is the panic of `Open` on a nonce that has not
-- the size that the cipher wants.
pub data DecryptError : Type 0 where
  no_key bad_format bad_base64 forged bad_nonce : DecryptError

-- `strings.SplitN(s, ":", 2)`, which has two parts only if there is a colon.
unfoldable pub cut : Bytes → Option (Bytes × Bytes)
cut [] = none
cut (c ∷ s) =
    let rest = cut s in
    if c == b':' then some ([], s) else elim rest [ none ↦ none | some (a, b) ↦ some (c ∷ a, b) ]

abbrev pub open_sealed : Aead → Bytes → Bytes → Result DecryptError Bytes
open_sealed a nonce sealed =
    if length nonce == a.nonce_size
    then (elim (a.unseal nonce sealed) [ none ↦ err forged | some plain ↦ ok plain ])
    else err bad_nonce

unfoldable pub decrypt : Option Aead → Bytes → Result DecryptError Bytes
unfolding cut
decrypt codec stored =
    if has_prefix stored state_enc_prefix
    then (elim codec [
      | none ↦ err no_key
      | some a ↦ elim (cut (trim_prefix stored state_enc_prefix)) [
        | none ↦ err bad_format
        | some (nonce_text, sealed_text) ↦ elim (base64_decode nonce_text) [
          | none ↦ err bad_base64
          | some nonce ↦ elim (base64_decode sealed_text) [
            | none ↦ err bad_base64
            | some sealed ↦ open_sealed a nonce sealed
          ]
        ]
      ]
    ])
    else ok stored

-- ===== src/Dashboard/Codec/RoundTrip.antt =====
-- Texts that are stored with a key, without one, and read back with or without one.
use telegram_remote_terminal.Prelude.{
  ◌≡◌, refl, false, [], ◌∷◌, ◌++◌, Bytes, Option, none, some, ok, err, ==_iff, length, All,
}
use telegram_remote_terminal.Text.{has_prefix}
use telegram_remote_terminal.Text.Search.{has_prefix-append, trim_prefix-append}
use telegram_remote_terminal.Text.Base64.{
  base64_encode, base64_decode-encode, IsSymbol, base64_encode-IsSymbol, IsByte,
}
use telegram_remote_terminal.Dashboard.Codec.{
  Aead, state_enc_prefix, sealed_text, encrypt, no_key, cut, open_sealed, decrypt,
}

cut-append : (s t : Bytes) → All IsSymbol s → cut (s ++ (b':' ∷ t)) ≡ some (s, t)
unfolding cut
cut-append [] t h = refl
cut-append (c ∷ s) t h = rw (h.0.1, cut-append s t h.1) refl

module _ (a : Aead) (nonce plain : Bytes) where
  open_sealed-seal :
      length nonce ≡ a.nonce_size → open_sealed a nonce (a.seal nonce plain) ≡ ok plain
  open_sealed-seal h =
      rw ((==_iff (length nonce) a.nonce_size).1 h, a.unseal-seal nonce plain h) refl

  -- What was encrypted is decrypted with the same key.
  decrypt-sealed_text :
      length nonce ≡ a.nonce_size
      → All IsByte nonce
      → All IsByte plain
      → decrypt (some a) (sealed_text nonce (a.seal nonce plain)) ≡ ok plain
  unfolding decrypt
  decrypt-sealed_text size bytes plain_bytes =
      let sealed = a.seal nonce plain in
      rw
        (
          has_prefix-append state_enc_prefix (base64_encode nonce ++ (b':' ∷ base64_encode sealed)),
          trim_prefix-append state_enc_prefix
              (base64_encode nonce ++ (b':' ∷ base64_encode sealed)),
          cut-append (base64_encode nonce) (base64_encode sealed)
              (base64_encode-IsSymbol nonce bytes),
          base64_decode-encode nonce bytes,
          base64_decode-encode sealed (a.seal-IsByte nonce plain plain_bytes),
        )
        (open_sealed-seal size)

abbrev pub NonceFits : Aead → Option Bytes → Type 0
NonceFits a none = Unit
NonceFits a (some nonce) = (length nonce ≡ a.nonce_size) × All IsByte nonce

-- What a text needs in order to be read back: without a key, not to look like an encrypted one; with
-- a key, to be of bytes, as the nonce, which has the size that the cipher wants.
abbrev pub Fits : Option Aead → Option Bytes → Bytes → Type 0
Fits none rand plain = has_prefix plain state_enc_prefix ≡ false
Fits (some a) rand plain = All IsByte plain × NonceFits a rand

some_eq : {s t : Bytes} → some s ≡ some t → s ≡ t
some_eq e = cc

decrypt-plain :
    (codec : Option Aead) (plain : Bytes)
    → has_prefix plain state_enc_prefix ≡ false
    → decrypt codec plain ≡ ok plain
unfolding decrypt
decrypt-plain codec plain h = rw h refl

-- What `Encrypt` made of a text, `Decrypt` gives back with the same codec, with a key or without.
pub decrypt-encrypt :
    (codec : Option Aead) (rand : Option Bytes) (plain stored : Bytes)
    → Fits codec rand plain
    → encrypt codec rand plain ≡ some stored
    → decrypt codec stored ≡ ok plain
unfolding encrypt
decrypt-encrypt none rand plain stored fits e =
    let same : plain ≡ stored = some_eq e in rw (← same) (decrypt-plain none plain fits)
decrypt-encrypt (some a) none plain stored fits e = cc
decrypt-encrypt (some a) (some nonce) plain stored fits e =
    rw (← some_eq e) (decrypt-sealed_text a nonce plain fits.1.0 fits.1.1 fits.0)

-- A store can be given a key later, and not lose it: a text that was stored without a key, and does
-- not look like an encrypted one, is read back with any key or none; one that was stored with a key
-- is refused without it.
decrypt-migrates :
    (a : Aead) (codec : Option Aead) (rand : Option Bytes) (plain stored sealed : Bytes)
    → has_prefix plain state_enc_prefix ≡ false
    → encrypt none rand plain ≡ some stored
    → encrypt (some a) rand plain ≡ some sealed
    → (decrypt codec stored ≡ ok plain) × (decrypt none sealed ≡ err no_key)
unfolding encrypt decrypt
decrypt-migrates a codec none plain stored sealed h e e' = cc
decrypt-migrates a codec (some nonce) plain stored sealed h e e' = (
  rw (← some_eq e) (rw h refl),
  rw (← some_eq e') (
      rw
        (has_prefix-append state_enc_prefix
          (base64_encode nonce ++ (b':' ∷ base64_encode (a.seal nonce plain))))
        refl),
)

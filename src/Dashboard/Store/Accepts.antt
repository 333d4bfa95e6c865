-- ===== src/Dashboard/Store/Accepts.antt =====
-- What the token check of internal/webterm/state_store.go asks a row, and how it changes with the row.
use telegram_remote_terminal.Prelude.{
  ◌≡◌, refl, ◌∙◌, sym, ap, subst, inl, inr, Bool, true, false, [], ◌∷◌, Bytes, Option, none, some,
  Result, ok, err, arith, All, if◌then◌else◌, eq_bytes, eq_bytes_iff, Bool-cases,
}
use telegram_remote_terminal.Text.{is_empty, has_prefix}
use telegram_remote_terminal.Web.Random.{hex_encode, IsByte}
use telegram_remote_terminal.Dashboard.Codec.{Aead, encrypt, decrypt, state_enc_prefix}
use telegram_remote_terminal.Dashboard.Codec.RoundTrip.{Fits, NonceFits, decrypt-encrypt}
use telegram_remote_terminal.Dashboard.Database.{Database, GatewayRow}
use telegram_remote_terminal.Dashboard.Store.{
  StoreError, unreadable, normalize_agent_id, new_row, get_gateway_token, validate_gateway_token,
}
use telegram_remote_terminal.Dashboard.Store.Ids.{IsIdByte, hex_encode-IsIdByte}

-- A token is not taken for an encrypted text.
pub hex_encode-has_prefix :
    (s : Bytes) → All IsByte s → has_prefix (hex_encode s) state_enc_prefix ≡ false
unfolding hex_encode has_prefix
hex_encode-has_prefix [] h = refl
hex_encode-has_prefix (b ∷ s) h = ground (arith, h.0)

pub IsByte-IsIdByte : (s : Bytes) → All IsIdByte s → All IsByte s
IsByte-IsIdByte [] h = tt
IsByte-IsIdByte (c ∷ s) h = (ground (arith, h.0), IsByte-IsIdByte s h.1)

pub token-Fits :
    (codec : Option Aead) (rand : Option Bytes) (b : Bytes)
    → All IsByte b
    → ((a : Aead) → codec ≡ some a → NonceFits a rand)
    → Fits codec rand (hex_encode b)
token-Fits none rand b bytes h = hex_encode-has_prefix b bytes
token-Fits (some a) rand b bytes h =
    (IsByte-IsIdByte (hex_encode b) (hex_encode-IsIdByte b bytes), h a refl)

module _ (D : Database) (codec : Option Aead) where
  -- What the token of a row is compared with.
  abbrev pub row_accepts : Option GatewayRow → Bytes → Result StoreError Bool
  row_accepts none token = ok false
  row_accepts (some r) token = elim (decrypt codec r.token_cipher) [
    | err e ↦ err (unreadable e)
    | ok stored ↦ ok (eq_bytes stored token)
  ]

  pub validate-row :
      (d : D.Db) (agent token : Bytes)
      → is_empty (normalize_agent_id agent) ≡ false
      → validate_gateway_token D codec d true agent token
        ≡ row_accepts (D.row_of d (normalize_agent_id agent)) token
  unfolding validate_gateway_token get_gateway_token
  validate-row d agent token h = ground arith

  pub validate-blank :
      (d : D.Db) (agent token : Bytes)
      → is_empty (normalize_agent_id agent) ≡ true
      → validate_gateway_token D codec d true agent token ≡ ok false
  unfolding validate_gateway_token get_gateway_token
  validate-blank d agent token h = rw (h, validate_gateway_token, get_gateway_token) refl

  -- A gateway's token as it stands in its row.
  pub accepts-new_row :
      (id name now cipher : Bytes) (rand : Option Bytes) (token t : Bytes)
      → Fits codec rand token
      → encrypt codec rand token ≡ some cipher
      → row_accepts (some (new_row id name cipher now)) t ≡ ok (eq_bytes token t)
  accepts-new_row id name now cipher rand token t fits e =
      rw (row_accepts, decrypt-encrypt codec rand token cipher fits e) refl

  -- What a statement that sets the row of one gateway changes.
  pub validate-set_row :
      (d d' : D.Db) (id : Bytes) (o : Option GatewayRow)
      → is_empty id ≡ false
      → ((i : Bytes) → D.row_of d' i ≡ (if eq_bytes id i then o else D.row_of d i))
      → (agent t : Bytes)
      → validate_gateway_token D codec d' true agent t ≡ (
          if eq_bytes id (normalize_agent_id agent)
          then row_accepts o t
          else validate_gateway_token D codec d true agent t)
  validate-set_row d d' id o named rule agent t =
      let i = normalize_agent_id agent in
      elim (Bool-cases (eq_bytes id i)) [
        | inl same ↦
            let there : is_empty i ≡ false =
              subst (λ x. is_empty x ≡ false) ((eq_bytes_iff id i).0 same) named in
            rw same
              (validate-row d' agent t there ∙ ap (λ x. row_accepts x t) (rule i ∙ rw same refl))
        | inr other ↦ rw other (elim (Bool-cases (is_empty i)) [
          | inl blank ↦ validate-blank d' agent t blank ∙ sym (validate-blank d agent t blank)
          | inr there ↦
              validate-row d' agent t there
              ∙ ap (λ x. row_accepts x t) (rule i ∙ rw other refl)
              ∙ sym (validate-row d agent t there)
        ])
      ]

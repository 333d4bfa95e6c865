-- ===== src/Dashboard/Store/Renames.antt =====
-- Renaming a gateway, and noting that its agent was seen, in internal/webterm/state_store.go.
use telegram_remote_terminal.Prelude.{
  ◌≡◌, refl, ◌∙◌, sym, ap, inl, inr, Bool, true, false, Bytes, Option, none, some, if◌then◌else◌,
  eq_bytes, Bool-cases,
}
use mathlib.Core.Option
use telegram_remote_terminal.Text.{trim_space, is_empty}
use telegram_remote_terminal.Dashboard.Codec.{Aead}
use telegram_remote_terminal.Dashboard.Database.{Database, GatewayRow, renamed, seen}
use telegram_remote_terminal.Dashboard.Store.{
  normalize_agent_id, cut_name, validate_gateway_token, rename_gateway, touch_gateway_seen,
}
use telegram_remote_terminal.Dashboard.Store.Accepts.{row_accepts, validate-row, validate-blank}

module _ (D : Database) (codec : Option Aead) where
  same_cipher :
      (f : GatewayRow → GatewayRow)
      → ((r : GatewayRow) → (f r).token_cipher ≡ r.token_cipher)
      → (o : Option GatewayRow) (t : Bytes)
      → row_accepts D codec (Option.map f o) t ≡ row_accepts D codec o t
  same_cipher f same none t = refl
  same_cipher f same (some r) t = rw (same r) refl

  same_or_changed :
      (b : Bool) (f : GatewayRow → GatewayRow)
      → ((r : GatewayRow) → (f r).token_cipher ≡ r.token_cipher)
      → (o : Option GatewayRow) (t : Bytes)
      → row_accepts D codec (if b then Option.map f o else o) t ≡ row_accepts D codec o t
  same_or_changed true f same o t = same_cipher f same o t
  same_or_changed false f same o t = refl

  -- A statement that changes rows, but no token.
  validate-same_cipher :
      (d d' : D.Db) (id : Bytes) (f : GatewayRow → GatewayRow)
      → ((r : GatewayRow) → (f r).token_cipher ≡ r.token_cipher)
      → ((i : Bytes)
          → D.row_of d' i ≡ (if eq_bytes id i then Option.map f (D.row_of d i) else D.row_of d i))
      → (agent t : Bytes)
      → validate_gateway_token D codec d' true agent t
        ≡ validate_gateway_token D codec d true agent t
  validate-same_cipher d d' id f same rule agent t =
      let i = normalize_agent_id agent in
      elim (Bool-cases (is_empty i)) [
        | inl blank ↦
            validate-blank D codec d' agent t blank ∙ sym (validate-blank D codec d agent t blank)
        | inr there ↦
            validate-row D codec d' agent t there
            ∙ ap (λ x. row_accepts D codec x t) (rule i)
            ∙ same_or_changed (eq_bytes id i) f same (D.row_of d i) t
            ∙ sym (validate-row D codec d agent t there)
      ]

  -- Renaming a gateway and noting that its agent was seen leave every answer of the token check as
  -- it was.
  validate-rename_gateway :
      (d : D.Db) (now agent_id name agent t : Bytes)
      → (validate_gateway_token D codec (rename_gateway D d true now agent_id name).0 true agent t
          ≡ validate_gateway_token D codec d true agent t)
        × (validate_gateway_token D codec (touch_gateway_seen D d true now agent_id).0 true agent t
            ≡ validate_gateway_token D codec d true agent t)
  unfolding rename_gateway touch_gateway_seen
  validate-rename_gateway d now agent_id name agent t = (
    elim (Bool-cases (is_empty (normalize_agent_id agent_id))) [
      | inl blank ↦ rw (blank, rename_gateway) refl
      | inr there ↦ elim (Bool-cases (is_empty (trim_space name))) [
        | inl unnamed ↦ rw (there, unnamed, rename_gateway) refl
        | inr named ↦
            let id = normalize_agent_id agent_id in
            let label = cut_name (trim_space name) in
            rw (there, named, rename_gateway)
              (validate-same_cipher d (D.set_name d id label now).0 id (renamed label now)
                (λ r. refl) (D.row_of-set_name d id label now) agent t)
      ]
    ],
    elim (Bool-cases (is_empty (normalize_agent_id agent_id))) [
      | inl blank ↦ rw (blank, touch_gateway_seen) refl
      | inr there ↦
          let id = normalize_agent_id agent_id in
          rw (there, touch_gateway_seen)
            (validate-same_cipher d (D.set_seen d id now) id (seen now) (λ r. refl)
              (D.row_of-set_seen d id now) agent t)
    ],
  )

-- ===== src/Dashboard/Store/Gateways.antt =====
-- Which tokens the store of internal/webterm/state_store.go accepts, as gateways come and go.
use telegram_remote_terminal.Prelude.{
  ◌≤◌, ◌≡◌, refl, ◌∙◌, sym, ap, subst, inl, inr, Bool, true, false, not, Bytes, Option, none, some,
  Result, ok, err, All, length, if◌then◌else◌, ◌==◌, eq_bytes, is_some, Option-cases,
}
use telegram_remote_terminal.Text.{trim_space, is_empty}
use telegram_remote_terminal.Web.Random.{hex_encode, IsByte}
use telegram_remote_terminal.Dashboard.Codec.{Aead, encrypt}
use telegram_remote_terminal.Dashboard.Codec.RoundTrip.{Fits, NonceFits}
use telegram_remote_terminal.Dashboard.Database.{Database}
use telegram_remote_terminal.Dashboard.Store.{
  StoreError, normalize_agent_id, random_hex, cut_name, name_or, id_or_random, new_row, Draws,
  create_gateway, validate_gateway_token, delete_gateway, gateway_not_found,
}
use telegram_remote_terminal.Dashboard.Store.Ids.{id_or_random-IsAgentId}
use telegram_remote_terminal.Dashboard.Store.Accepts.{token-Fits, accepts-new_row, validate-set_row}

module _ (D : Database) (codec : Option Aead) where
  -- What a successful `CreateGateway` did.
  create_gateway_ok :
      (d d' : D.Db) (now : Bytes) (draws : Draws) (agent_id name id token : Bytes)
      → create_gateway D codec d true now draws agent_id name ≡ (d', ok (id, token))
      → let chosen =
          id_or_random (normalize_agent_id agent_id) (random_hex draws.id_bytes draws.clock) in
        let drawn = random_hex draws.token_bytes draws.clock in
        (cipher : Bytes) × (encrypt codec draws.nonce drawn ≡ some cipher)
        × (D.insert_row d (new_row chosen (cut_name (name_or (trim_space name) chosen)) cipher now)
            ≡ some d')
        × (chosen ≡ id)
        × (drawn ≡ token)
  unfolding create_gateway
  create_gateway_ok d d' now draws agent_id name id token h =
      let chosen =
        id_or_random (normalize_agent_id agent_id) (random_hex draws.id_bytes draws.clock) in
      let drawn = random_hex draws.token_bytes draws.clock in
      elim (Option-cases (encrypt codec draws.nonce drawn)) [
        | inl failed ↦ absurd (refused (rw (failed, create_gateway) at h))
        | inr (cipher, e) ↦
            let row = new_row chosen (cut_name (name_or (trim_space name) chosen)) cipher now in
            elim (Option-cases (D.insert_row d row)) [
              | inl clash ↦ absurd (refused (rw (e, clash, create_gateway) at h))
              | inr (d'', inserted) ↦
                  let (same, same_id, same_token) =
                    answered (rw (e, inserted, create_gateway) at h) in
                  (cipher, e, rw (← same) inserted, same_id, same_token)
            ]
      ]
    where
      refused :
          {x y : D.Db} {e : StoreError} {v : Bytes × Bytes}
          → ¬ (◌≡◌ {A = D.Db × Result StoreError (Bytes × Bytes)} (x, err e) (y, ok v))
      refused p = cc p

      answered :
          {x y : D.Db} {i j t u : Bytes}
          → ◌≡◌ {A = D.Db × Result StoreError (Bytes × Bytes)} (x, ok (i, t)) (y, ok (j, u))
          → (x ≡ y) × (i ≡ j) × (t ≡ u)
      answered p = (cc p, cc p, cc p)

  -- After a `CreateGateway` that reports no error, on a database that works, the token that it
  -- returned, and no other, is accepted for the gateway that it returned, by whatever text normalizes
  -- to its identifier; for every other gateway the same tokens are accepted as before. The random
  -- source gives bytes, at most 22 for the identifier, and the nonce fits the cipher.
  pub validate-create_gateway :
      (d d' : D.Db) (now : Bytes) (draws : Draws) (agent_id name id token b c : Bytes)
      → draws.id_bytes ≡ some b
      → draws.token_bytes ≡ some c
      → length b ≤ 22
      → All IsByte b
      → All IsByte c
      → ((a : Aead) → codec ≡ some a → NonceFits a draws.nonce)
      → create_gateway D codec d true now draws agent_id name ≡ (d', ok (id, token))
      → (agent t : Bytes)
      → validate_gateway_token D codec d' true agent t ≡ (
          if eq_bytes id (normalize_agent_id agent)
          then ok (eq_bytes token t)
          else validate_gateway_token D codec d true agent t)
  unfolding random_hex
  validate-create_gateway d d' now draws agent_id name id token b c eb ec short bytes_b bytes_c fits
        h agent t =
      let chosen =
        id_or_random (normalize_agent_id agent_id) (random_hex draws.id_bytes draws.clock) in
      let (cipher, e, inserted, same_id, same_token) =
        create_gateway_ok d d' now draws agent_id name id token h in
      let row = new_row chosen (cut_name (name_or (trim_space name) chosen)) cipher now in
      let drawn : random_hex draws.token_bytes draws.clock ≡ hex_encode c =
        rw (ec, random_hex) refl in
      let named : is_empty id ≡ false =
        rw (← same_id) (rw eb (id_or_random-IsAgentId agent_id b draws.clock bytes_b short).1) in
      let e' : encrypt codec draws.nonce token ≡ some cipher = rw same_token at e in
      let fits' : Fits codec draws.nonce token =
        subst (Fits codec draws.nonce) (sym drawn ∙ same_token)
          (token-Fits codec draws.nonce c bytes_c fits) in
      validate-set_row D codec d d' id (some row) named
        (λ i.
          D.row_of-insert_row d d' row i inserted
          ∙ ap (λ x. if eq_bytes x i then some row else D.row_of d i) same_id)
        agent t
      ∙ ap
          (λ x.
            if eq_bytes id (normalize_agent_id agent)
            then x
            else validate_gateway_token D codec d true agent t)
          (accepts-new_row D codec chosen (cut_name (name_or (trim_space name) chosen)) now cipher
            draws.nonce token t fits' e')

  -- After `DeleteGateway` with an identifier that is not blank, on a database that works, no token is
  -- accepted for the gateway, by whatever text normalizes to its identifier; for every other gateway
  -- the same tokens are accepted as before. It reports an error exactly if there was no such gateway.
  pub validate-delete_gateway :
      (d : D.Db) (agent_id : Bytes)
      → is_empty (normalize_agent_id agent_id) ≡ false
      → let (d', error) = delete_gateway D d true agent_id in
        ((agent t : Bytes)
          → validate_gateway_token D codec d' true agent t ≡ (
              if eq_bytes (normalize_agent_id agent_id) (normalize_agent_id agent)
              then ok false
              else validate_gateway_token D codec d true agent t))
        × (is_some error ≡ not (is_some (D.row_of d (normalize_agent_id agent_id))))
  unfolding delete_gateway
  validate-delete_gateway d agent_id named =
      let id = normalize_agent_id agent_id in
      rw named (
        λ agent t.
            validate-set_row D codec d (D.delete_row d id).0 id none named
              (D.row_of-delete_row d id) agent t,
        rw (D.delete_row_affected d id) (none_affected (is_some (D.row_of d id))),
      )
    where
      none_affected :
          (there : Bool)
          → is_some {A = StoreError}
              (if (if there then 1 else 0) == 0 then some gateway_not_found else none)
            ≡ not there
      none_affected true = refl
      none_affected false = refl

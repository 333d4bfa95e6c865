-- ===== src/Dashboard/Examples.antt =====
-- The theorems on the dashboard's store on tables in memory.
use telegram_remote_terminal.Prelude.{
  ◌≡◌, refl, true, false, not, [], ◌∷◌, Bytes, codes, Option, none, some, ok, arith, if◌then◌else◌,
  eq_bytes, is_some, insert, lookup, bytes_key, length, ◌≤◌, All, ◌↔◌, subst,
}
use telegram_remote_terminal.Text.{trim_space, trim_left, trim_right}
use telegram_remote_terminal.Web.Random.{hex_encode}
use telegram_remote_terminal.Dashboard.Codec.{Aead, sealed_text, encrypt, decrypt}
use telegram_remote_terminal.Dashboard.Codec.RoundTrip.{NonceFits, decrypt-encrypt}
use telegram_remote_terminal.Dashboard.Tables.{Tables, tables, empty_tables, plain_aead, inserted}
use telegram_remote_terminal.Dashboard.Store.{
  Draws, normalize_agent_id, random_hex, create_gateway, delete_gateway, validate_gateway_token,
  get, save,
}
use telegram_remote_terminal.Dashboard.Store.Ids.{IsAgentId, IsIdByte, normalize_agent_id_bounds}
use telegram_remote_terminal.Dashboard.Store.Gateways.{
  validate-create_gateway, validate-delete_gateway,
}
use telegram_remote_terminal.Dashboard.Store.Profiles.{get-save}

abbrev cipher : Option Aead
cipher = some plain_aead

abbrev seven : Option Bytes
seven = some (7 ∷ [])

decrypt-encrypt_example : decrypt cipher (sealed_text (7 ∷ []) (codes "ab")) ≡ ok (codes "ab")
unfolding encrypt
decrypt-encrypt_example =
    decrypt-encrypt cipher seven (codes "ab") (sealed_text (7 ∷ []) (codes "ab"))
      ((omega arith, (omega arith, tt)), (refl, (omega arith, tt))) refl

normalize_agent_id_bounds_example :
    (length (normalize_agent_id (codes "gw 1!")) ≤ 48)
    × All IsIdByte (normalize_agent_id (codes "gw 1!"))
    × ((normalize_agent_id (codes "gw 1!") ≡ codes "gw 1!") ↔ IsAgentId (codes "gw 1!"))
normalize_agent_id_bounds_example = normalize_agent_id_bounds (codes "gw 1!")

abbrev draws : Draws
draws = record {
  id_bytes = some (1 ∷ []);
  token_bytes = some (2 ∷ []);
  nonce = seven;
  clock = codes "t";
}

abbrev one_gateway : Tables
one_gateway =
    (create_gateway tables cipher empty_tables true (codes "now") draws (codes "gw 1") []).0

validate-create_gateway_example :
    validate_gateway_token tables cipher one_gateway true (codes " gw1") (codes "02") ≡ ok true
unfolding create_gateway normalize_agent_id random_hex encrypt hex_encode trim_space trim_left
    trim_right inserted insert lookup eq_bytes
validate-create_gateway_example =
    validate-create_gateway tables cipher empty_tables one_gateway (codes "now") draws
      (codes "gw 1") [] (codes "gw1") (codes "02") (1 ∷ []) (2 ∷ []) refl refl (omega arith)
      (omega arith, tt) (omega arith, tt)
      (λ a e.
        subst
          (λ (o : Option Aead). elim o as (λ x. Type 0) [
            | none ↦ Unit
            | some x ↦ NonceFits x seven
          ])
          e (refl, (omega arith, tt)))
      refl (codes " gw1") (codes "02")

validate-delete_gateway_example :
    let (d', error) = delete_gateway tables one_gateway true (codes "gw1") in
    ((agent t : Bytes)
      → validate_gateway_token tables cipher d' true agent t ≡ (
          if eq_bytes (normalize_agent_id (codes "gw1")) (normalize_agent_id agent)
          then ok false
          else validate_gateway_token tables cipher one_gateway true agent t))
    × (is_some error ≡ not (is_some (tables.row_of one_gateway (normalize_agent_id (codes "gw1")))))
unfolding normalize_agent_id trim_space trim_left trim_right
validate-delete_gateway_example =
    validate-delete_gateway tables cipher one_gateway (codes "gw1") refl

get-save_example :
    get tables cipher
      (save tables cipher empty_tables true (codes "now") seven (codes "profile1") (codes "{}")).0
      true
      (codes "profile1")
    ≡ ok (some (codes "{}"))
unfolding save encrypt eq_bytes
get-save_example =
    get-save tables cipher empty_tables (codes "now") seven (codes "profile1") (codes "{}")
      (codes "profile1") ((omega arith, (omega arith, tt)), (refl, (omega arith, tt))) refl

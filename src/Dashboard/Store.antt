-- ===== src/Dashboard/Store.antt =====
-- internal/webterm/state_store.go, over any database. A method is given whether its statement
-- succeeds (`works`), the database's text of the time (`now`) and what the random source gives.
pub mod Ids
pub mod Accepts
pub mod Gateways
pub mod Renames
pub mod Profiles
use telegram_remote_terminal.Prelude.{
  ℕ, zero, suc, ◌≡◌, Bool, true, false, not, ◌&&◌, ◌||◌, List, [], ◌∷◌, ◌++◌, Bytes, codes, Option,
  none, some, Result, ok, err, if◌then◌else◌, ltb, leb, ◌==◌, eq_bytes, keep_if, take, length, Map,
  lookup, is_some, bytes_key,
}
use telegram_remote_terminal.Text.{trim_space, is_empty}
use telegram_remote_terminal.Web.Random.{hex_encode}
use telegram_remote_terminal.Dashboard.Codec.{
  Aead, KeyError, new_state_codec, encrypt, decrypt, DecryptError,
}
use telegram_remote_terminal.Dashboard.Database.{Database, GatewayRow}

pub data StoreError : Type 0 where
  db_failed random_failed : StoreError
  unreadable : DecryptError → StoreError
  agent_id_required name_required gateway_not_found : StoreError

-- Why `NewDashboardStateStore` fails; `not_opened` is the file or one of the two tables.
pub data OpenError : Type 0 where
  path_required : OpenError
  bad_key : KeyError → OpenError
  not_opened : OpenError

-- `normalizeAgentID`: what is no ASCII letter, digit, dash or underscore is dropped. Each byte of
-- another character is dropped, as the character is.
abbrev pub is_id_byte : ℕ → Bool
is_id_byte c =
    (leb b'a' c && leb c b'z')
    || (leb b'A' c && leb c b'Z')
    || (leb b'0' c && leb c b'9')
    || c == b'-'
    || c == b'_'

unfoldable pub normalize_agent_id : Bytes → Bytes
normalize_agent_id v = take 48 (keep_if is_id_byte (trim_space v))

-- `randomHex`; `clock` is the text of the time, which stands in when the random source fails.
unfoldable pub random_hex : Option Bytes → Bytes → Bytes
random_hex none clock = hex_encode clock
random_hex (some b) clock = hex_encode b

-- `name[:64]` of a name that is longer
abbrev pub cut_name : Bytes → Bytes
cut_name name = if ltb 64 (length name) then take 64 name else name

abbrev pub id_or_random : Bytes → Bytes → Bytes
id_or_random id random = if is_empty id then codes "gw-" ++ random else id

abbrev pub name_or : Bytes → Bytes → Bytes
name_or name id = if is_empty name then id else name

abbrev pub new_row : (id name cipher now : Bytes) → GatewayRow
new_row id name cipher now = record {
  agent_id = id;
  name = name;
  token_cipher = cipher;
  created_at = now;
  updated_at = now;
  last_seen_at = [];
}

-- A record of `ListGateways`, with times of Go.
pub record GatewayRecord : Type 0 where
  pub agent_id : Bytes
  pub name : Bytes
  pub created_at : ℕ
  pub updated_at : ℕ
  pub last_seen_at : ℕ
  pub online : Bool

-- What the random source gives to `CreateGateway`.
pub record Draws : Type 0 where
  pub id_bytes : Option Bytes
  pub token_bytes : Option Bytes
  pub nonce : Option Bytes
  pub clock : Bytes

-- `opened` is the database with its two tables, which are made where they are missing.
unfoldable pub new_dashboard_state_store :
    {Db : Type 0}
    → (Bytes → Aead)
    → (path key : Bytes) → (opened : Option Db) → Result OpenError (Db × Option Aead)
unfolding new_state_codec
new_dashboard_state_store aead_of path key opened =
    if is_empty (trim_space path) then err path_required else elim (new_state_codec aead_of key) [
      | err e ↦ err (bad_key e)
      | ok codec ↦ elim opened [ none ↦ err not_opened | some d ↦ ok (d, codec) ]
    ]

module _ (D : Database) (codec : Option Aead) where
  unfoldable pub get : D.Db → (works : Bool) → Bytes → Result StoreError (Option Bytes)
  get d works profile = if not works then err db_failed else elim (D.payload_of d profile) [
    | none ↦ ok none
    | some payload ↦ elim (decrypt codec payload) [
      | err e ↦ err (unreadable e)
      | ok plain ↦ ok (some plain)
    ]
  ]

  unfoldable pub save :
      D.Db
      → (works : Bool) → (now : Bytes) → (rand : Option Bytes) → (profile payload : Bytes)
      → D.Db × Option StoreError
  save d works now rand profile payload = elim (encrypt codec rand payload) [
    | none ↦ (d, some random_failed)
    | some encrypted ↦
        if works then (D.put_payload d profile encrypted now, none) else (d, some db_failed)
  ]

  abbrev insert_new : D.Db → Bool → GatewayRow → Bytes → D.Db × Result StoreError (Bytes × Bytes)
  insert_new d works row token =
      if not works then (d, err db_failed) else elim (D.insert_row d row) [
        | none ↦ (d, err db_failed)
        | some d' ↦ (d', ok (row.agent_id, token))
      ]

  unfoldable pub create_gateway :
      D.Db
      → (works : Bool) → (now : Bytes) → Draws
      → (agent_id name : Bytes) → D.Db × Result StoreError (Bytes × Bytes)
  create_gateway d works now draws agent_id name =
      let id = id_or_random (normalize_agent_id agent_id) (random_hex draws.id_bytes draws.clock) in
      let label = cut_name (name_or (trim_space name) id) in
      let token = random_hex draws.token_bytes draws.clock in
      elim (encrypt codec draws.nonce token) [
        | none ↦ (d, err random_failed)
        | some cipher ↦ insert_new d works (new_row id label cipher now) token
      ]

  unfoldable pub get_gateway_token :
      D.Db → (works : Bool) → Bytes → Result StoreError (Option Bytes)
  get_gateway_token d works agent_id =
      let id = normalize_agent_id agent_id in
      if is_empty id then ok none else if not works then err db_failed else elim (D.row_of d id) [
        | none ↦ ok none
        | some r ↦ elim (decrypt codec r.token_cipher) [
          | err e ↦ err (unreadable e)
          | ok plain ↦ ok (some plain)
        ]
      ]

  unfoldable pub validate_gateway_token :
      D.Db → (works : Bool) → (agent_id token : Bytes) → Result StoreError Bool
  validate_gateway_token d works agent_id token = elim (get_gateway_token d works agent_id) [
    | err e ↦ err e
    | ok none ↦ ok false
    | ok (some stored) ↦ ok (eq_bytes stored token)
  ]

module _ (D : Database) where
  -- `db.Exec` and then `RowsAffected`
  abbrev affecting : D.Db → Bool → D.Db × ℕ → D.Db × Option StoreError
  affecting d works (d', n) =
      if not works
      then (d, some db_failed)
      else (d', if n == 0 then some gateway_not_found else none)

  unfoldable pub rename_gateway :
      D.Db → (works : Bool) → (now : Bytes) → (agent_id name : Bytes) → D.Db × Option StoreError
  rename_gateway d works now agent_id name =
      let id = normalize_agent_id agent_id in
      let label = trim_space name in
      if is_empty id
      then (d, some agent_id_required)
      else if is_empty label
      then (d, some name_required)
      else affecting d works (D.set_name d id (cut_name label) now)

  unfoldable pub delete_gateway : D.Db → (works : Bool) → Bytes → D.Db × Option StoreError
  delete_gateway d works agent_id =
      let id = normalize_agent_id agent_id in
      if is_empty id then (d, some agent_id_required) else affecting d works (D.delete_row d id)

  unfoldable pub touch_gateway_seen :
      D.Db → (works : Bool) → (now : Bytes) → Bytes → D.Db × Option StoreError
  touch_gateway_seen d works now agent_id =
      let id = normalize_agent_id agent_id in
      if is_empty id
      then (d, none)
      else if works
      then (D.set_seen d id now, none)
      else (d, some db_failed)

  -- `parse` is `time.Parse` with the layout of the code.
  module _ (parse : Bytes → Option ℕ) where
    unfoldable pub parse_sqlite_time : Bytes → ℕ
    parse_sqlite_time raw =
        let text = trim_space raw in
        if is_empty text then 0 else elim (parse text) [ none ↦ 0 | some t ↦ t ]

    abbrev pub record_of : Map Bytes ℕ → GatewayRow → GatewayRecord
    record_of online r = record {
      agent_id = r.agent_id;
      name = name_or (trim_space r.name) r.agent_id;
      created_at = parse_sqlite_time r.created_at;
      updated_at = parse_sqlite_time r.updated_at;
      last_seen_at = parse_sqlite_time r.last_seen_at;
      online = is_some (lookup r.agent_id online);
    }

    abbrev pub records_of : Map Bytes ℕ → List GatewayRow → List GatewayRecord
    records_of online [] = []
    records_of online (r ∷ rows) = record_of online r ∷ records_of online rows

    unfoldable pub list_gateways :
        D.Db → (works : Bool) → Map Bytes ℕ → Result StoreError (List GatewayRecord)
    unfolding parse_sqlite_time
    list_gateways d works online =
        if works then ok (records_of online (D.all_rows d)) else err db_failed

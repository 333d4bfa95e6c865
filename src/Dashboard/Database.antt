-- ===== src/Dashboard/Database.antt =====
-- The SQL database behind internal/webterm/state_store.go, which is not part of the repository: the
-- statements that the store sends, and what SQL says of them. A statement that fails changes nothing;
-- whether it fails is an argument of the store's methods.
use telegram_remote_terminal.Prelude.{
  ℕ, ◌≡◌, true, List, Bytes, Option, none, some, if◌then◌else◌, is_some, eq_bytes, bytes_key,
}
use mathlib.Core.Option

-- A row of `gateway_agent`; the times are texts, as SQLite keeps them.
pub record GatewayRow : Type 0 where
  pub agent_id : Bytes
  pub name : Bytes
  pub token_cipher : Bytes
  pub created_at : Bytes
  pub updated_at : Bytes
  pub last_seen_at : Bytes

abbrev pub renamed : Bytes → Bytes → GatewayRow → GatewayRow
renamed name now r = record r { name = name; updated_at = now }

abbrev pub seen : Bytes → GatewayRow → GatewayRow
seen now r = record r { last_seen_at = now; updated_at = now }

pub record Database : Type 1 where
  pub Db : Type 0
  -- SELECT payload FROM dashboard_state WHERE profile_id = ?
  pub payload_of : Db → Bytes → Option Bytes
  -- INSERT INTO dashboard_state … ON CONFLICT(profile_id) DO UPDATE …
  pub put_payload : Db → (profile payload now : Bytes) → Db
  -- SELECT … FROM gateway_agent WHERE agent_id = ?
  pub row_of : Db → Bytes → Option GatewayRow
  -- INSERT INTO gateway_agent …; `none` is that the primary key is there already
  pub insert_row : Db → GatewayRow → Option Db
  -- UPDATE gateway_agent SET name=?, updated_at=…, with the rows affected
  pub set_name : Db → (id name now : Bytes) → Db × ℕ
  -- DELETE FROM gateway_agent …, with the rows affected
  pub delete_row : Db → Bytes → Db × ℕ
  -- UPDATE gateway_agent SET last_seen_at=…, updated_at=…
  pub set_seen : Db → (id now : Bytes) → Db
  -- SELECT … FROM gateway_agent ORDER BY created_at DESC
  pub all_rows : Db → List GatewayRow
  pub payload_of-put_payload :
      (d : Db) (profile payload now p : Bytes)
      → payload_of (put_payload d profile payload now) p
        ≡ (if eq_bytes profile p then some payload else payload_of d p)
  pub row_of-put_payload :
      (d : Db) (profile payload now id : Bytes)
      → row_of (put_payload d profile payload now) id ≡ row_of d id
  pub insert_row_clash :
      (d : Db) (r : GatewayRow) → is_some (row_of d r.agent_id) ≡ true → insert_row d r ≡ none
  pub row_of-insert_row :
      (d d' : Db) (r : GatewayRow) (id : Bytes)
      → insert_row d r ≡ some d'
      → row_of d' id ≡ (if eq_bytes r.agent_id id then some r else row_of d id)
  pub row_of-set_name :
      (d : Db) (id name now i : Bytes)
      → row_of (set_name d id name now).0 i
        ≡ (if eq_bytes id i then Option.map (renamed name now) (row_of d i) else row_of d i)
  pub set_name_affected :
      (d : Db) (id name now : Bytes)
      → (set_name d id name now).1 ≡ (if is_some (row_of d id) then 1 else 0)
  pub row_of-delete_row :
      (d : Db) (id i : Bytes)
      → row_of (delete_row d id).0 i ≡ (if eq_bytes id i then none else row_of d i)
  pub delete_row_affected :
      (d : Db) (id : Bytes) → (delete_row d id).1 ≡ (if is_some (row_of d id) then 1 else 0)
  pub row_of-set_seen :
      (d : Db) (id now i : Bytes)
      → row_of (set_seen d id now) i
        ≡ (if eq_bytes id i then Option.map (seen now) (row_of d i) else row_of d i)

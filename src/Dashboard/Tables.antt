-- ===== src/Dashboard/Tables.antt =====
-- The statements of internal/webterm/state_store.go on two tables in memory: a database that keeps
-- all the laws, and a cipher that does.
use telegram_remote_terminal.Prelude.{
  ℕ, ◌≡◌, refl, ap, inl, inr, true, List, [], ◌∷◌, Bytes, Option, none, some, Map, lookup, insert,
  remove, lookup-insert, lookup-remove, if◌then◌else◌, is_some, eq_bytes, eq_bytes_iff, bytes_key,
  Option-cases, Bool-cases,
}
use mathlib.Core.Option
use telegram_remote_terminal.Dashboard.Codec.{Aead}
use telegram_remote_terminal.Dashboard.Database.{Database, GatewayRow, renamed, seen}

pub record Tables : Type 0 where
  pub payloads : Map Bytes Bytes
  pub rows : Map Bytes GatewayRow

-- UPDATE … WHERE agent_id = ?
unfoldable pub changed : (GatewayRow → GatewayRow) → Tables → Bytes → Tables
changed f t id = elim (lookup id t.rows) [
  | none ↦ t
  | some r ↦ record t { rows = insert id (f r) t.rows }
]

pub lookup-changed :
    (f : GatewayRow → GatewayRow) (t : Tables) (id i : Bytes)
    → lookup i (changed f t id).rows
      ≡ (if eq_bytes id i then Option.map f (lookup i t.rows) else lookup i t.rows)
unfolding changed
lookup-changed f t id i = elim (Option-cases (lookup id t.rows)) [
  | inl missing ↦
      rw (missing, changed)
        (elim (Bool-cases (eq_bytes id i)) [
          | inl same ↦ rw same (absent ((eq_bytes_iff id i).0 same) missing)
          | inr other ↦ rw other refl
        ])
  | inr (r, there) ↦
      rw (there, changed, lookup-insert id i (f r) t.rows)
        (elim (Bool-cases (eq_bytes id i)) [
          | inl same ↦ rw same (present ((eq_bytes_iff id i).0 same) there)
          | inr other ↦ rw other refl
        ])
]
  where
    absent : id ≡ i → lookup id t.rows ≡ none → lookup i t.rows ≡ Option.map f (lookup i t.rows)
    absent e h = rw (← e, h) refl

    present :
        {r : GatewayRow}
        → id ≡ i
        → lookup id t.rows ≡ some r
        → some (f r) ≡ Option.map f (lookup i t.rows)
    present e h = rw (← e, h) refl

abbrev pub affected : Option GatewayRow → ℕ
affected o = if is_some o then 1 else 0

unfoldable pub inserted : Tables → GatewayRow → Option Tables
inserted t r =
    if is_some (lookup r.agent_id t.rows)
    then none
    else some (record t { rows = insert r.agent_id r t.rows })

pub inserted_clash :
    (t : Tables) (r : GatewayRow) → is_some (lookup r.agent_id t.rows) ≡ true → inserted t r ≡ none
unfolding inserted
inserted_clash t r h = rw (h, inserted) refl

pub lookup-inserted :
    (t t' : Tables) (r : GatewayRow) (id : Bytes)
    → inserted t r ≡ some t'
    → lookup id t'.rows ≡ (if eq_bytes r.agent_id id then some r else lookup id t.rows)
unfolding inserted
lookup-inserted t t' r id h = elim (Bool-cases (is_some (lookup r.agent_id t.rows))) [
  | inl clash ↦ cc (rw (clash, inserted) at h)
  | inr free ↦
      let e : some (record t { rows = insert r.agent_id r t.rows }) ≡ some t' =
        rw (free, inserted) at h in
      rw (← field e) (lookup-insert r.agent_id id r t.rows)
]
  where
    field : {x : Tables} → some x ≡ some t' → x.rows ≡ t'.rows
    field e = ap (λ o. let y : Tables = elim o [ none ↦ t' | some y ↦ y ] in y.rows) e

abbrev pub values : Map Bytes GatewayRow → List GatewayRow
values [] = []
values ((id, r) ∷ rows) = r ∷ values rows

abbrev pub tables : Database
tables = record {
  Db = Tables;
  payload_of = λ t profile. lookup profile t.payloads;
  put_payload = λ t profile payload now. record t { payloads = insert profile payload t.payloads };
  row_of = λ t id. lookup id t.rows;
  insert_row = inserted;
  set_name = λ t id name now. (changed (renamed name now) t id, affected (lookup id t.rows));
  delete_row = λ t id. (record t { rows = remove id t.rows }, affected (lookup id t.rows));
  set_seen = λ t id now. changed (seen now) t id;
  all_rows = λ t. values t.rows;
  payload_of-put_payload = λ t profile payload now p. lookup-insert profile p payload t.payloads;
  row_of-put_payload = λ t profile payload now id. refl;
  insert_row_clash = inserted_clash;
  row_of-insert_row = lookup-inserted;
  row_of-set_name = λ t id name now i. lookup-changed (renamed name now) t id i;
  set_name_affected = λ t id name now. refl;
  row_of-delete_row = λ t id i. lookup-remove id i t.rows;
  delete_row_affected = λ t id. refl;
  row_of-set_seen = λ t id now i. lookup-changed (seen now) t id i;
}

abbrev pub empty_tables : Tables
empty_tables = record { payloads = []; rows = [] }

-- No cipher at all: what is sealed is the text.
abbrev pub plain_aead : Aead
plain_aead = record {
  nonce_size = 1;
  seal = λ rand plain. plain;
  unseal = λ rand sealed. some sealed;
  seal-IsByte = λ rand plain h. h;
  unseal-seal = λ rand plain h. refl;
}

-- ===== src/Redb/Tables.antt =====
-- backend/redb.rs: the names of tables, and the table of prepared stores.
use collette.Prelude.{
  ◌≡◌, refl, ℕ, ◌+◌, ◌/◌, ◌%◌, ◌&&◌, Option, none, some, List, [], ◌∷◌, ◌++◌, map, ltb,
  if◌then◌else◌,
}
use collette.Bytes.{Bytes, ◌=ᵇ◌}
use collette.Outcome.{Outcome, unwrap}
use collette.Store.{Name, BackendError}

abbrev pub TableName : Type 0
TableName = Bytes

-- The characters of `HEX`, by their place.
unfoldable pub hex_digit : ℕ → ℕ
hex_digit d = if ltb d 10 then d + 0x30 else d + 0x57

unfoldable pub push_hex : Bytes → Bytes → Bytes
unfolding hex_digit
push_hex out [] = out
push_hex out (byte ∷ bytes) =
    push_hex (out ++ hex_digit (byte / 16) ∷ hex_digit (byte % 16) ∷ []) bytes

unfoldable pub table_name : Name → Name → TableName
unfolding push_hex
table_name namespace store = push_hex (push_hex [] namespace ++ 0x3a ∷ []) store

abbrev pub TableKey : Type 0
TableKey = Name × Name

-- An entry of `PreparedTables`, with the proof that it holds the name of its table.
pub record PreparedTable : Type 0 where
  pub key : TableKey
  pub name : TableName
  pub named : name ≡ table_name key.0 key.1

-- `PreparedTables`, whose order is not seen: what is inserted last stands first.
abbrev pub PreparedTables : Type 0
PreparedTables = List PreparedTable

unfoldable pub get_table : PreparedTables → TableKey → Option TableName
get_table [] key = none
get_table (entry ∷ tables) key =
    if (entry.key.0 =ᵇ key.0) && (entry.key.1 =ᵇ key.1)
    then some entry.name
    else get_table tables key

-- `retain` of `prepare`
unfoldable pub retain_others : Name → PreparedTables → PreparedTables
retain_others namespace [] = []
retain_others namespace (entry ∷ tables) =
    let rest = retain_others namespace tables in
    if entry.key.0 =ᵇ namespace then rest else entry ∷ rest

unfoldable pub insert_tables : List PreparedTable → PreparedTables → PreparedTables
insert_tables [] tables = tables
insert_tables (entry ∷ prepared) tables = insert_tables prepared (entry ∷ tables)

unfoldable pub prepared_table_name : PreparedTables → Name → Name → Outcome BackendError TableName
unfolding get_table
prepared_table_name tables namespace store = unwrap (get_table tables (namespace, store))

unfoldable pub prepared_names : Name → List Name → List PreparedTable
prepared_names namespace stores =
    map
      (λ store. record {
        key = (namespace, store);
        name = table_name namespace store;
        named = refl;
      })
      stores

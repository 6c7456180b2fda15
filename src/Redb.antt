-- ===== src/Redb.antt =====
-- backend/redb.rs: the persistent backend over the redb crate. The crate is a parameter, the
-- record `Engine`; a `redb::Range` is the list of the items between its two ends. A store is the
-- table of its name in the database, under the hexadecimal name of namespace and store.
pub mod Tables
pub mod Names
pub mod Promises
pub mod Contract
pub mod Prepared
pub mod Listing
pub mod Returns
pub mod Available
use collette.Prelude.{ℕ, zero, suc, Option, none, some, List, [], ◌∷◌, length}
use mathlib.Core.List.{reverse}
use collette.Bytes.{Bytes}
use collette.Range.{Bound, Range, included, excluded, unbounded}
use collette.Outcome.{Outcome, ok, ◌>>=◌}
pub use collette.Redb.Tables.{TableName, TableKey, PreparedTable, PreparedTables}
unfoldable pub use collette.Redb.Tables.{
  hex_digit, push_hex, table_name, get_table, retain_others, insert_tables, prepared_table_name,
  prepared_names,
}
use collette.Store.{MultiStore, Name, Direction, left_to_right, right_to_left, BackendError}

-- `redb::Range`: what lies between its ends.
abbrev pub Items : Type 0
Items = List (Outcome BackendError (Bytes × Bytes))

-- The calls of the redb crate. `close_table` is the drop of an open table of a transaction.
pub record Engine : Type 1 where
  pub Database : Type 0
  pub ReadTransaction : Type 0
  pub WriteTransaction : Type 0
  pub ReadTable : Type 0
  pub WriteTable : Type 0
  pub create : Bytes → Outcome BackendError Database
  pub open_file : Bytes → Outcome BackendError Database
  pub begin_read : Database → Outcome BackendError ReadTransaction
  pub begin_write : Database → Outcome BackendError WriteTransaction
  pub open_read_table : ReadTransaction → TableName → Outcome BackendError ReadTable
  pub open_write_table : WriteTransaction → TableName → Outcome BackendError WriteTable
  pub close_table : WriteTransaction → TableName → WriteTable → WriteTransaction
  pub commit : Database → WriteTransaction → Outcome BackendError Database
  pub get : ReadTable → Bytes → Outcome BackendError (Option Bytes)
  pub range : ReadTable → Range Bytes → Outcome BackendError Items
  pub get_staged : WriteTable → Bytes → Outcome BackendError (Option Bytes)
  pub range_staged : WriteTable → Range Bytes → Outcome BackendError Items
  pub insert : WriteTable → Bytes → Bytes → Outcome BackendError WriteTable
  pub remove : WriteTable → Bytes → Outcome BackendError WriteTable

unfoldable pub bytes_bound : Bound Bytes → Bound Bytes
bytes_bound (included value) = included value
bytes_bound (excluded value) = excluded value
bytes_bound unbounded = unbounded

unfoldable pub scan_bounds : Range Bytes → Range Bytes
unfolding bytes_bound
scan_bounds (start, end) = (bytes_bound start, bytes_bound end)

-- `DirectedRange`, and what it yields: `next` takes from the front, `next_back` from the back.
pub data DirectedRange : Type 0 where
  from_left from_right : Items → DirectedRange

unfoldable pub directed_range : Items → Direction → DirectedRange
directed_range range left_to_right = from_left range
directed_range range right_to_left = from_right range

-- `scan_entry`: the key and the value of an item, or its error.
unfoldable pub scan_entry :
    Outcome BackendError (Bytes × Bytes) → Outcome BackendError (Bytes × Bytes)
scan_entry entry = do e ← entry; ok (e.0, e.1)

unfoldable pub next_item :
    DirectedRange → Option (Outcome BackendError (Bytes × Bytes) × DirectedRange)
next_item (from_left range) = elim range [
  | [] ↦ none
  | item ∷ rest ↦ some (scan_entry item, from_left rest)
]
next_item (from_right range) = elim (reverse range) [
  | [] ↦ none
  | item ∷ rest ↦ some (scan_entry item, from_right (reverse rest))
]

-- The first `n` items that the iterator yields.
unfoldable pub take_items : ℕ → DirectedRange → Items
take_items zero it = []
take_items (suc n) it = elim (next_item it) [
  | none ↦ []
  | some (item, rest) ↦ item ∷ take_items n rest
]

module _ (e : Engine) where
  pub record RedbMultiStore : Type 0 where
    pub db : e.Database
    pub tables : PreparedTables

  pub record RedbReadHandle : Type 0 where
    pub namespace : Name
    pub tables : PreparedTables
    pub read : e.ReadTransaction

  pub record RedbWriteHandle : Type 0 where
    pub namespace : Name
    pub tables : PreparedTables
    pub write : e.WriteTransaction

  unfoldable pub from_database : e.Database → RedbMultiStore
  from_database db = record { db = db; tables = [] }

  unfoldable pub create : Bytes → Outcome BackendError RedbMultiStore
  unfolding from_database
  create path = do db ← e.create path; ok (from_database db)

  unfoldable pub open_path : Bytes → Outcome BackendError RedbMultiStore
  unfolding from_database
  open_path path = do db ← e.open_file path; ok (from_database db)

  -- The loop of `prepare`: each table is opened, and so created, and dropped.
  unfoldable pub create_tables :
      e.WriteTransaction → List PreparedTable → Outcome BackendError e.WriteTransaction
  create_tables write [] = ok write
  create_tables write (entry ∷ prepared) = do
    table ← e.open_write_table write entry.name
    create_tables (e.close_table write entry.name table) prepared

  unfoldable pub prepare : RedbMultiStore → Name → List Name → Outcome BackendError RedbMultiStore
  unfolding prepared_names create_tables insert_tables retain_others
  prepare s namespace stores = do
    let prepared = prepared_names namespace stores
    write ← e.begin_write s.db
    write' ← create_tables write prepared
    db ← e.commit s.db write'
    ok (record { db = db; tables = insert_tables prepared (retain_others namespace s.tables) })

  unfoldable pub read : RedbMultiStore → Name → Outcome BackendError RedbReadHandle
  read s namespace = do
    transaction ← e.begin_read s.db
    ok (record { namespace = namespace; tables = s.tables; read = transaction })

  unfoldable pub write : RedbMultiStore → Name → Outcome BackendError RedbWriteHandle
  write s namespace = do
    transaction ← e.begin_write s.db
    ok (record { namespace = namespace; tables = s.tables; write = transaction })

  unfoldable pub open_read : RedbReadHandle → Name → Outcome BackendError e.ReadTable
  unfolding prepared_table_name
  open_read h name = do
    table ← prepared_table_name h.tables h.namespace name
    e.open_read_table h.read table

  unfoldable pub open_write : RedbWriteHandle → Name → Outcome BackendError e.WriteTable
  unfolding prepared_table_name
  open_write w name = do
    table ← prepared_table_name w.tables w.namespace name
    e.open_write_table w.write table

  -- The table of the store `name`, which `open_write` has opened, is dropped.
  unfoldable pub close : RedbWriteHandle → Name → e.WriteTable → RedbWriteHandle
  close w name table = record w {
    write = e.close_table w.write (table_name w.namespace name) table;
  }

  unfoldable pub commit : RedbMultiStore → RedbWriteHandle → Outcome BackendError RedbMultiStore
  commit s w = do db ← e.commit s.db w.write; ok (record s { db = db })

  -- `ReadKVStore::scan`, with the iterator drained.
  unfoldable pub scan : e.ReadTable → Range Bytes → Direction → Outcome BackendError Items
  unfolding scan_bounds directed_range
  scan table r direction = do
    range ← e.range table (scan_bounds r)
    ok (take_items (length range) (directed_range range direction))

  -- The same for a table that is written to, which the iterator keeps.
  unfoldable pub scan_staged : e.WriteTable → Range Bytes → Direction → Outcome BackendError Items
  unfolding scan_bounds directed_range
  scan_staged table r direction = do
    range ← e.range_staged table (scan_bounds r)
    ok (take_items (length range) (directed_range range direction))

  abbrev pub redb : MultiStore
  redb = record {
    Db = RedbMultiStore;
    ReadHandle = RedbReadHandle;
    WriteHandle = RedbWriteHandle;
    ReadStore = e.ReadTable;
    WriteStore = e.WriteTable;
    prepare = prepare;
    read = read;
    write = write;
    open_read = open_read;
    get = e.get;
    scan = scan;
    open_write = open_write;
    get_staged = e.get_staged;
    scan_staged = scan_staged;
    set = e.insert;
    remove = e.remove;
    close = close;
    commit = commit;
  }

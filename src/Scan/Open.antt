-- ===== src/Scan/Open.antt =====
-- scan.rs: the executors and the look-up by a unique index; iter.rs: the iterators.
use collette.Prelude.{String, Option, none, some, List, [], ◌∷◌}
use collette.Bytes.{Bytes}
use collette.Outcome.{Outcome, Error, ok, err, map_err, ◌>>=◌}
use collette.Key.{Key}
use collette.Item.{Item}
use collette.Index.{Index}
use collette.Bounds.{ScanRange}
use collette.Store.{MultiStore, Name, Direction}
use collette.Collection.{Collection, main_store, decode_record}
use collette.Scan.{Scan, full, compile, Cursor, cursor_key}

-- `Entry`; the field `found` is its record.
pub record Entry (R : Type 0) : Type 0 where
  pub found : R
  pub key : Cursor

module _ {R PK : Type 0} (b : MultiStore) (item : Item R PK) where
  abbrev pub Results : Type 0
  Results = List (Outcome String (Bytes × Bytes))

  pub record IndexIterator : Type 0 where
    pub inner : Results
    pub primary_store : b.ReadStore

  pub record CollectionIterator : Type 0 where
    pub inner : Results

  -- The bytes of the record that an entry of an index names. `missing` is the text of the error.
  unfoldable pub require_record : (Bytes → String) → Bytes → Option Bytes → Outcome Error Bytes
  require_record missing value none = err (Error.unexpected (missing value))
  require_record missing value (some bytes) = ok bytes

  unfoldable pub index_entry :
      (Bytes → String) → b.ReadStore → Outcome String (Bytes × Bytes) → Outcome Error (Entry R)
  unfolding require_record
  index_entry missing primary_store res = do
    entry ← map_err Error.backend res
    found ← map_err Error.backend (b.get primary_store entry.1)
    record_bytes ← require_record missing entry.1 found
    r ← map_err Error.codec (item.from_bytes record_bytes)
    ok (record { found = r; key = cursor_key entry.0 })

  unfoldable pub collection_entry : Outcome String (Bytes × Bytes) → Outcome Error (Entry R)
  collection_entry res = do
    entry ← map_err Error.backend res
    r ← map_err Error.codec (item.from_bytes entry.1)
    ok (record { found = r; key = cursor_key entry.0 })

  -- `IndexIterator::next` and `CollectionIterator::next`, with the iterator that is left.
  unfoldable pub next_indexed :
      (Bytes → String) → IndexIterator → Option (Outcome Error (Entry R) × IndexIterator)
  unfolding index_entry
  next_indexed missing it = elim it.inner [
    | [] ↦ none
    | res ∷ rest ↦ some (index_entry missing it.primary_store res, record it { inner = rest })
  ]

  unfoldable pub next_stored :
      CollectionIterator → Option (Outcome Error (Entry R) × CollectionIterator)
  unfolding collection_entry
  next_stored it = elim it.inner [
    | [] ↦ none
    | res ∷ rest ↦ some (collection_entry res, record it { inner = rest })
  ]

  -- `IndexScanExecutor` and `CollectionScanExecutor`
  pub record ScanExecutor : Type 0 where
    pub collection_name : Name
    pub read_handle : b.ReadHandle

  unfoldable pub open_index :
      Index R PK → ScanExecutor → ScanRange → Direction → Outcome Error IndexIterator
  open_index i executor r direction = do
    index_store ← map_err Error.backend (b.open_read executor.read_handle i.name)
    inner ← map_err Error.backend (b.scan index_store r direction)
    primary_store ←
        map_err Error.backend (b.open_read executor.read_handle executor.collection_name)
    ok (record { inner = inner; primary_store = primary_store })

  unfoldable pub open_collection :
      ScanExecutor → ScanRange → Direction → Outcome Error CollectionIterator
  open_collection executor r direction = do
    store ← map_err Error.backend (b.open_read executor.read_handle executor.collection_name)
    inner ← map_err Error.backend (b.scan store r direction)
    ok (record { inner = inner })

  -- `Scan::iter`: the scan is compiled and opened.
  unfoldable pub iter :
      {P I : Type 0}
      → Key P
      → (ScanExecutor → ScanRange → Direction → Outcome Error I)
      → Scan ScanExecutor P
      → Outcome Error I
  iter kp open_with s = do
    compiled ← compile kp s
    open_with compiled.executor compiled.range compiled.direction

module _ {R PK : Type 0} (b : MultiStore) (c : Collection R PK) where
  -- `Collection::scan`
  unfoldable pub scan : {P : Type 0} → b.Db → Outcome Error (Scan (ScanExecutor b c.item) P)
  scan db = do
    read_handle ← map_err Error.backend (b.read db c.name)
    ok (full (record { collection_name = main_store; read_handle = read_handle }))

  -- `Collection::index_scan`
  unfoldable pub index_scan :
      {P : Type 0} → Index R PK → b.Db → Outcome Error (Scan (ScanExecutor b c.item) P)
  index_scan i db = do
    read_handle ← map_err Error.backend (b.read db c.name)
    ok (full (record { collection_name = main_store; read_handle = read_handle }))

  -- The end of `IndexScan::get`, after the look-up in the index.
  unfoldable pub get_primary : ScanExecutor b c.item → Option Bytes → Outcome Error (Option R)
  unfolding decode_record
  get_primary executor none = ok none
  get_primary executor (some primary_key) = do
    primary_store ←
        map_err Error.backend (b.open_read executor.read_handle executor.collection_name)
    bytes ← map_err Error.backend (b.get primary_store primary_key)
    decode_record b c bytes

  -- `IndexScan::get`
  unfoldable pub get_by_index :
      (i : Index R PK) → ScanExecutor b c.item → i.IndexKey → Outcome Error (Option R)
  unfolding get_primary
  get_by_index i executor key = do
    index_store ← map_err Error.backend (b.open_read executor.read_handle i.name)
    primary_key ← map_err Error.backend (b.get index_store (i.key_ops.encode key))
    get_primary executor primary_key

-- ===== src/Collection.antt =====
-- collection.rs: collections and their builder, over any backend. A method takes the database and
-- returns it changed; an error or a panic leaves it as it was, since a write handle that is not
-- committed is dropped.
pub mod Spec
pub mod Refines
pub mod Refinement
pub mod Runs
pub mod InMemory
pub mod Consistent
pub mod Keeps
pub mod Available
pub mod Registered
pub mod Session
pub mod Concurrent
pub mod Persistent
use collette.Prelude.{Option, none, some, List, [], ◌∷◌, if◌then◌else◌}
use collette.Bytes.{Bytes}
use collette.Outcome.{Outcome, Error, ok, err, panic, already_exists, not_found, map_err, ◌>>=◌}
use collette.Key.{Key}
use collette.Item.{Item}
use collette.Store.{MultiStore, Name}
use collette.Index.{Index, update_indexes, remove_entries, store_names, has_index}

-- "__main"
abbrev pub main_store : Name
main_store = 0x5f ∷ 0x5f ∷ 0x6d ∷ 0x61 ∷ 0x69 ∷ 0x6e ∷ []

-- A collection's name and indexes, with the operations of its record and primary key types. The
-- database is passed beside it.
pub record Collection (R PK : Type 0) : Type 1 where
  pub name : Name
  pub item : Item R PK
  pub pk_ops : Key PK
  pub indexes : List (Index R PK)

-- `collection`
unfoldable pub collection : {R PK : Type 0} → Name → Item R PK → Key PK → Collection R PK
collection name item pk_ops = record { name = name; item = item; pk_ops = pk_ops; indexes = [] }

-- `CollectionBuilder::with_index`: a name that is there already is refused by a panic.
unfoldable pub with_index :
    {R PK : Type 0} → Collection R PK → Index R PK → Outcome Error (Collection R PK)
with_index c i =
    if has_index c.indexes i.name then panic else ok (record c { indexes = i ∷ c.indexes })

module _ {R PK : Type 0} (b : MultiStore) (c : Collection R PK) where
  -- `CollectionBuilder::build`, `Collection::new`: an error of the backend is a panic.
  unfoldable pub build : b.Db → Outcome Error b.Db
  build db = elim (b.prepare db c.name (store_names c.indexes (main_store ∷ []))) [
    | ok db' ↦ ok db'
    | err e ↦ panic
    | panic ↦ panic
  ]

  -- What is stored under a primary key, decoded.
  unfoldable pub decode_record : Option Bytes → Outcome Error (Option R)
  decode_record none = ok none
  decode_record (some bytes) = do r ← map_err Error.codec (c.item.from_bytes bytes); ok (some r)

  unfoldable pub find_record : b.WriteStore → PK → Outcome Error (Option R)
  unfolding decode_record
  find_record store pk = do
    bytes ← map_err Error.backend (b.get_staged store (c.pk_ops.encode pk))
    decode_record bytes

  -- The end of `insert`, `update` and `save`: the record is written to the primary store, which is
  -- then closed, the indexes are updated, and all is committed.
  unfoldable pub write_record :
      b.Db → b.WriteHandle → b.WriteStore → Option R → R → Outcome Error b.Db
  write_record db tx store old value = do
    let pk = c.item.key value
    bytes ← map_err Error.codec (c.item.to_bytes value)
    store' ← map_err Error.backend (b.set store (c.pk_ops.encode pk) bytes)
    tx' ← update_indexes b c.pk_ops c.indexes (b.close tx main_store store') pk old value
    map_err Error.backend (b.commit db tx')

  -- `insert`, after the look-up of the key.
  unfoldable pub insert_found :
      b.Db → R → b.WriteHandle → b.WriteStore → Option Bytes → Outcome Error b.Db
  unfolding write_record
  insert_found db value tx store (some _) = err (already_exists (c.pk_ops.debug (c.item.key value)))
  insert_found db value tx store none = write_record db tx store none value

  unfoldable pub insert : b.Db → R → Outcome Error b.Db
  unfolding insert_found
  insert db value = do
    tx ← map_err Error.backend (b.write db c.name)
    store ← map_err Error.backend (b.open_write tx main_store)
    existing ← map_err Error.backend (b.get_staged store (c.pk_ops.encode (c.item.key value)))
    insert_found db value tx store existing

  -- `update`, after the look-up of the old record.
  unfoldable pub update_found :
      b.Db → R → b.WriteHandle → b.WriteStore → Option R → Outcome Error b.Db
  unfolding write_record
  update_found db value tx store none = err (not_found (c.pk_ops.debug (c.item.key value)))
  update_found db value tx store (some old) = write_record db tx store (some old) value

  unfoldable pub update : b.Db → R → Outcome Error b.Db
  unfolding find_record update_found
  update db value = do
    tx ← map_err Error.backend (b.write db c.name)
    store ← map_err Error.backend (b.open_write tx main_store)
    found ← find_record store (c.item.key value)
    update_found db value tx store found

  unfoldable pub save : b.Db → R → Outcome Error b.Db
  unfolding find_record write_record
  save db value = do
    tx ← map_err Error.backend (b.write db c.name)
    store ← map_err Error.backend (b.open_write tx main_store)
    old ← find_record store (c.item.key value)
    write_record db tx store old value

  -- `remove`, after the look-up: a missing record is no error, and the entries are removed under
  -- the key of the decoded record.
  unfoldable pub remove_found :
      b.Db → PK → b.WriteHandle → b.WriteStore → Option R → Outcome Error b.Db
  remove_found db pk tx store none = ok db
  remove_found db pk tx store (some r) = do
    store' ← map_err Error.backend (b.remove store (c.pk_ops.encode pk))
    tx' ← remove_entries b c.pk_ops c.indexes (b.close tx main_store store') (c.item.key r) r
    map_err Error.backend (b.commit db tx')

  unfoldable pub remove : b.Db → PK → Outcome Error b.Db
  unfolding find_record remove_found
  remove db pk = do
    tx ← map_err Error.backend (b.write db c.name)
    store ← map_err Error.backend (b.open_write tx main_store)
    found ← find_record store pk
    remove_found db pk tx store found

  unfoldable pub get : b.Db → PK → Outcome Error (Option R)
  unfolding decode_record
  get db pk = do
    handle ← map_err Error.backend (b.read db c.name)
    store ← map_err Error.backend (b.open_read handle main_store)
    bytes ← map_err Error.backend (b.get store (c.pk_ops.encode pk))
    decode_record bytes

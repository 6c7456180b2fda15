-- ===== src/Memory.antt =====
-- backend/memory.rs: the in-memory backend, seen by one thread. Namespaces hold stores by name;
-- a write handle works on a copy and publishes it on commit. A panic of the code (an unprepared
-- namespace or store, a reversed range) is the outcome `panic`. The writer gate stands in the module
-- Gate.
pub mod Contract
pub mod Listing
pub mod Gate
pub mod Available
use collette.Prelude.{Option, none, some, List, [], ◌∷◌, map}
use mathlib.Core.List.{reverse}
use collette.Bytes.{Bytes}
use collette.Range.{Range}
use collette.Outcome.{Outcome, ok, unwrap, ◌>>=◌}
use collette.Map
use collette.Map.{Map}
use collette.Store.{MultiStore, Name, Direction, left_to_right, right_to_left, BackendError}

abbrev pub KvStore : Type 0
KvStore = Map Bytes

abbrev pub NamespacedStores : Type 0
NamespacedStores = Map KvStore

pub record NamespacedState : Type 0 where
  pub stores : NamespacedStores

abbrev pub Namespaces : Type 0
Namespaces = Map NamespacedState

unfoldable pub new : Namespaces
new = []

-- A store that is kept from `current`, or an empty one.
unfoldable pub kept_store : NamespacedStores → Name → KvStore
kept_store current name = elim (Map.get current name) [ none ↦ [] | some store ↦ store ]

-- The stores of the given names, collected into a map.
unfoldable pub prepared_stores : NamespacedStores → List Name → NamespacedStores → NamespacedStores
unfolding kept_store
prepared_stores current [] next = next
prepared_stores current (name ∷ names) next =
    prepared_stores current names (Map.insert next name (kept_store current name))

unfoldable pub prepare : Namespaces → Name → List Name → Outcome BackendError Namespaces
unfolding prepared_stores
prepare db namespace names = elim (Map.get db namespace) [
  | some state ↦
      ok (Map.insert db namespace (record { stores = prepared_stores state.stores names [] }))
  | none ↦ ok (Map.insert db namespace (record { stores = prepared_stores [] names [] }))
]

pub record ReadHandle : Type 0 where
  pub stores : NamespacedStores

unfoldable pub read : Namespaces → Name → Outcome BackendError ReadHandle
read db namespace = do state ← unwrap (Map.get db namespace); ok (record { stores = state.stores })

pub record WriteHandle : Type 0 where
  pub namespace : Name
  pub staged : NamespacedStores

-- `write`, of a thread that the writer gate lets in at once.
unfoldable pub write : Namespaces → Name → Outcome BackendError WriteHandle
write db namespace = do
  state ← unwrap (Map.get db namespace)
  ok (record { namespace = namespace; staged = state.stores })

unfoldable pub open_read : ReadHandle → Name → Outcome BackendError KvStore
open_read h name = unwrap (Map.get h.stores name)

unfoldable pub open_write : WriteHandle → Name → Outcome BackendError KvStore
open_write w name = unwrap (Map.get w.staged name)

-- The borrow of the store `name` ends.
unfoldable pub close : WriteHandle → Name → KvStore → WriteHandle
close w name store = record w { staged = Map.insert w.staged name store }

unfoldable pub commit : Namespaces → WriteHandle → Outcome BackendError Namespaces
commit db w = ok (Map.insert db w.namespace (record { stores = w.staged }))

unfoldable pub get : KvStore → Bytes → Outcome BackendError (Option Bytes)
get store key = ok (Map.get store key)

unfoldable pub set : KvStore → Bytes → Bytes → Outcome BackendError KvStore
set store key value = ok (Map.insert store key value)

unfoldable pub remove : KvStore → Bytes → Outcome BackendError KvStore
remove store key = ok (Map.remove store key)

unfoldable pub in_direction : {A : Type 0} → Direction → List A → List A
in_direction left_to_right entries = entries
in_direction right_to_left entries = reverse entries

unfoldable pub scan :
    KvStore
    → Range Bytes
    → Direction
    → Outcome BackendError (List (Outcome BackendError (Bytes × Bytes)))
unfolding in_direction
scan store r direction = do
  entries ← unwrap (Map.range store r)
  ok (map ok (in_direction direction entries))

-- `scan` of a store that is written to.
unfoldable pub scan_staged :
    KvStore
    → Range Bytes
    → Direction
    → Outcome BackendError (List (Outcome BackendError (Bytes × Bytes)))
unfolding in_direction
scan_staged store r direction = do
  entries ← unwrap (Map.range store r)
  ok (map ok (in_direction direction entries))

abbrev pub memory : MultiStore
memory = record {
  Db = Namespaces;
  ReadHandle = ReadHandle;
  WriteHandle = WriteHandle;
  ReadStore = KvStore;
  WriteStore = KvStore;
  prepare = prepare;
  read = read;
  write = write;
  open_read = open_read;
  get = get;
  scan = scan;
  open_write = open_write;
  get_staged = get;
  scan_staged = scan_staged;
  set = set;
  remove = remove;
  close = close;
  commit = commit;
}

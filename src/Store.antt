-- ===== src/Store.antt =====
-- store.rs: the traits that a storage backend implements, as one record of operations, and what
-- they promise. A handle or store that is written to is returned anew.
pub mod Put
pub mod Listing
pub mod Available
use collette.Prelude.{Bool, String, ◌≡◌, Option, none, some, List, if◌then◌else◌}
use collette.Bytes.{Bytes, compare_bytes, ◌=ᵇ◌}
use collette.Range.{Range, is_lt}
use collette.Outcome.{Outcome, ok}

-- `Direction` of scan.rs.
pub data Direction : Type 0 where
  left_to_right right_to_left : Direction

-- The key `k` comes after `c` in the direction.
abbrev pub past : Direction → Bytes → Bytes → Bool
past left_to_right c k = is_lt (compare_bytes c k)
past right_to_left c k = is_lt (compare_bytes k c)

abbrev pub Name : Type 0
Name = Bytes

-- The text of an error that a backend or a codec returns.
abbrev pub BackendError : Type 0
BackendError = String

-- `MultiStore`, `MultiStoreReadHandle`, `MultiStoreWriteHandle`, `ReadKVStore`, `WriteKVStore`.
-- `close` ends the borrow of a store that was opened for writing: its writes are in the handle.
pub record MultiStore : Type 1 where
  pub Db : Type 0
  pub ReadHandle : Type 0
  pub WriteHandle : Type 0
  pub ReadStore : Type 0
  pub WriteStore : Type 0
  pub prepare : Db → Name → List Name → Outcome BackendError Db
  pub read : Db → Name → Outcome BackendError ReadHandle
  pub write : Db → Name → Outcome BackendError WriteHandle
  pub open_read : ReadHandle → Name → Outcome BackendError ReadStore
  pub get : ReadStore → Bytes → Outcome BackendError (Option Bytes)
  pub scan :
      ReadStore
      → Range Bytes
      → Direction
      → Outcome BackendError (List (Outcome BackendError (Bytes × Bytes)))
  pub open_write : WriteHandle → Name → Outcome BackendError WriteStore
  pub get_staged : WriteStore → Bytes → Outcome BackendError (Option Bytes)
  pub scan_staged :
      WriteStore
      → Range Bytes
      → Direction
      → Outcome BackendError (List (Outcome BackendError (Bytes × Bytes)))
  pub set : WriteStore → Bytes → Bytes → Outcome BackendError WriteStore
  pub remove : WriteStore → Bytes → Outcome BackendError WriteStore
  pub close : WriteHandle → Name → WriteStore → WriteHandle
  pub commit : Db → WriteHandle → Outcome BackendError Db

-- What a store holds, and what the stores of a namespace hold.
abbrev pub Content : Type 0
Content = Bytes → Option Bytes

abbrev pub Contents : Type 0
Contents = Name → Content

abbrev pub put {ℓ} : {V : Type ℓ} → (Bytes → V) → Bytes → V → Bytes → V
put f k v j = if k =ᵇ j then v else f j

-- The contract of a backend, by what its handles and stores hold. Each clause speaks of a call
-- that succeeds.
pub record IsLawful (b : MultiStore) : Type 1 where
  pub stored : b.Db → Name → Contents
  pub seen : b.ReadHandle → Contents
  pub readable : b.ReadStore → Content
  pub staged : b.WriteHandle → Contents
  pub writable : b.WriteStore → Content
  -- The handle was begun on the database, for the namespace.
  pub Begun : b.Db → Name → b.WriteHandle → Type 0
  pub read_lem : (d : b.Db) (n : Name) {h : b.ReadHandle} → b.read d n ≡ ok h → seen h ≡ stored d n
  pub open_read_lem :
      (h : b.ReadHandle) (n : Name) {s : b.ReadStore}
      → b.open_read h n ≡ ok s
      → readable s ≡ seen h n
  pub get_lem :
      (s : b.ReadStore) (k : Bytes) {v : Option Bytes} → b.get s k ≡ ok v → v ≡ readable s k
  pub write_lem :
      (d : b.Db) (n : Name) {w : b.WriteHandle}
      → b.write d n ≡ ok w
      → (staged w ≡ stored d n) × Begun d n w
  pub open_write_lem :
      (w : b.WriteHandle) (n : Name) {s : b.WriteStore}
      → b.open_write w n ≡ ok s
      → writable s ≡ staged w n
  pub get_staged_lem :
      (s : b.WriteStore) (k : Bytes) {v : Option Bytes} → b.get_staged s k ≡ ok v → v ≡ writable s k
  pub set_lem :
      (s : b.WriteStore) (k v : Bytes) {s' : b.WriteStore}
      → b.set s k v ≡ ok s'
      → writable s' ≡ put (writable s) k (some v)
  pub remove_lem :
      (s : b.WriteStore) (k : Bytes) {s' : b.WriteStore}
      → b.remove s k ≡ ok s'
      → writable s' ≡ put (writable s) k none
  pub staged-close :
      (w : b.WriteHandle) (n : Name) (s : b.WriteStore)
      → staged (b.close w n s) ≡ put (staged w) n (writable s)
  pub begun-close :
      (d : b.Db) (n m : Name) (w : b.WriteHandle) (s : b.WriteStore)
      → Begun d n w
      → Begun d n (b.close w m s)
  pub commit_lem :
      (d : b.Db) (n : Name) (w : b.WriteHandle) {d' : b.Db}
      → Begun d n w
      → b.commit d w ≡ ok d'
      → stored d' ≡ put (stored d) n (staged w)

-- ===== src/Index.antt =====
-- index.rs and index_registry.rs: secondary indexes, their physical keys, and how they are kept
-- up to date. The type-level list of indexes is a list.
use collette.Prelude.{Bool, false, ◌||◌, Option, none, some, List, [], ◌∷◌, ◌++◌, if◌then◌else◌}
use collette.Bytes.{Bytes, ◌=ᵇ◌}
use collette.Outcome.{Outcome, Error, ok, err, already_exists, map_err, ◌>>=◌}
use collette.Key.{Key}
use collette.Bounds.{BoundsEncoder, exact_encoder, prefix_encoder}
use collette.Store.{MultiStore, Name}

-- `IndexKind`: the physical key of an entry, and how ranges of index keys are encoded.
pub record IndexKind (IK PK SK : Type 0) : Type 0 where
  pub store_key : IK → PK → SK
  pub bounds : BoundsEncoder IK

-- `Unique`: the index key itself.
unfoldable pub unique : {IK PK : Type 0} → Key IK → IndexKind IK PK IK
unique ik = record { store_key = λ k pk. k; bounds = exact_encoder ik }

-- `AppendKey`: the index key with the primary key behind it.
pub record AppendKey (IK PK SK : Type 0) : Type 0 where
  pub append : IK → PK → SK

unfoldable pub append_to_one : {K PK : Type 0} → AppendKey K PK (K × PK)
append_to_one = record { append = λ k pk. (k, pk) }

unfoldable pub append_to_two : {A B PK : Type 0} → AppendKey (A × B) PK (A × B × PK)
append_to_two = record { append = λ k pk. (k.0, k.1, pk) }

unfoldable pub append_to_three : {A B C PK : Type 0} → AppendKey (A × B × C) PK (A × B × C × PK)
append_to_three = record { append = λ k pk. (k.0, k.1, k.2, pk) }

-- `Multi`
unfoldable pub multi : {IK PK SK : Type 0} → Key IK → AppendKey IK PK SK → IndexKind IK PK SK
multi ik a = record { store_key = a.append; bounds = prefix_encoder ik }

-- An implementation of `Index` for records `R` with primary keys `PK`.
pub record Index (R PK : Type 0) : Type 1 where
  pub name : Name
  pub IndexKey : Type 0
  pub StoreKey : Type 0
  pub key_ops : Key IndexKey
  pub store_ops : Key StoreKey
  pub kind : IndexKind IndexKey PK StoreKey
  pub key : R → IndexKey

-- The physical key of a record, and its bytes.
abbrev pub store_key_of : {R PK : Type 0} (i : Index R PK) → R → PK → i.StoreKey
store_key_of i r pk = i.kind.store_key (i.key r) pk

abbrev pub entry_key : {R PK : Type 0} → Index R PK → R → PK → Bytes
entry_key i r pk = i.store_ops.encode (store_key_of i r pk)

module _ {R PK : Type 0} (b : MultiStore) (pk_ops : Key PK) where
  -- The entry of the new record is written, unless its key is taken.
  unfoldable pub write_if_free :
      (i : Index R PK)
      → b.WriteHandle
      → PK
      → R
      → b.WriteStore
      → Option Bytes
      → Outcome Error b.WriteHandle
  write_if_free i w pk new store (some _) =
      err (already_exists (i.store_ops.debug (store_key_of i new pk)))
  write_if_free i w pk new store none = do
    store' ← map_err Error.backend (b.set store (entry_key i new pk) (pk_ops.encode pk))
    ok (b.close w i.name store')

  unfoldable pub write_entry :
      (i : Index R PK) → b.WriteHandle → PK → R → b.WriteStore → Outcome Error b.WriteHandle
  unfolding write_if_free
  write_entry i w pk new store = do
    found ← map_err Error.backend (b.get_staged store (entry_key i new pk))
    write_if_free i w pk new store found

  -- `Index::update`
  unfoldable pub update_index :
      (i : Index R PK) → b.WriteHandle → PK → Option R → R → Outcome Error b.WriteHandle
  unfolding write_entry
  update_index i w pk none new = do
    store ← map_err Error.backend (b.open_write w i.name)
    write_entry i w pk new store
  update_index i w pk (some old) new = do
    store ← map_err Error.backend (b.open_write w i.name)
    if i.store_ops.beq (store_key_of i old pk) (store_key_of i new pk) then ok w else do
      store' ← map_err Error.backend (b.remove store (entry_key i old pk))
      write_entry i w pk new store'

  -- `Index::remove`
  unfoldable pub remove_entry :
      (i : Index R PK) → b.WriteHandle → PK → R → Outcome Error b.WriteHandle
  remove_entry i w pk item = do
    store ← map_err Error.backend (b.open_write w i.name)
    store' ← map_err Error.backend (b.remove store (entry_key i item pk))
    ok (b.close w i.name store')

  -- `IndexRegistry::update` and `IndexRegistry::remove`
  unfoldable pub update_indexes :
      List (Index R PK) → b.WriteHandle → PK → Option R → R → Outcome Error b.WriteHandle
  update_indexes [] w pk old new = ok w
  update_indexes (i ∷ is) w pk old new = do
    w' ← update_index i w pk old new
    update_indexes is w' pk old new

  unfoldable pub remove_entries :
      List (Index R PK) → b.WriteHandle → PK → R → Outcome Error b.WriteHandle
  remove_entries [] w pk item = ok w
  remove_entries (i ∷ is) w pk item = do w' ← remove_entry i w pk item; remove_entries is w' pk item

-- `IndexRegistry::store_names` and `IndexRegistry::has_index`
unfoldable pub store_names : {R PK : Type 0} → List (Index R PK) → List Name → List Name
store_names [] out = out
store_names (i ∷ is) out = store_names is (out ++ i.name ∷ [])

unfoldable pub has_index : {R PK : Type 0} → List (Index R PK) → Name → Bool
has_index [] name = false
has_index (i ∷ is) name = (i.name =ᵇ name) || has_index is name

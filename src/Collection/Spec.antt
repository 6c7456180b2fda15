-- ===== src/Collection/Spec.antt =====
-- What the methods of a collection promise, as functions on what the stores of its namespace hold.
use collette.Prelude.{Option, none, some, List, [], ◌∷◌, if◌then◌else◌}
use collette.Bytes.{Bytes}
use collette.Outcome.{Outcome, Error, ok, err, already_exists, not_found, map_err, ◌>>=◌}
use collette.Key.{Key}
use collette.Store.{Content, Contents, put}
use collette.Index.{Index, store_key_of, entry_key}
use collette.Collection.{Collection, main_store}

module _ {R PK : Type 0} (pk_ops : Key PK) where
  -- The entry of the new record, on the store content `s`.
  unfoldable pub spec_write_entry :
      Index R PK → Contents → PK → R → Content → Outcome Error Contents
  spec_write_entry i ct pk new s = elim (s (entry_key i new pk)) [
    | some _ ↦ err (already_exists (i.store_ops.debug (store_key_of i new pk)))
    | none ↦ ok (put ct i.name (put s (entry_key i new pk) (some (pk_ops.encode pk))))
  ]

  unfoldable pub spec_update_index :
      Index R PK → Contents → PK → Option R → R → Outcome Error Contents
  spec_update_index i ct pk none new = spec_write_entry i ct pk new (ct i.name)
  spec_update_index i ct pk (some old) new =
      if i.store_ops.beq (store_key_of i old pk) (store_key_of i new pk)
      then ok ct
      else spec_write_entry i ct pk new (put (ct i.name) (entry_key i old pk) none)

  unfoldable pub spec_remove_entry : Index R PK → Contents → PK → R → Contents
  spec_remove_entry i ct pk item = put ct i.name (put (ct i.name) (entry_key i item pk) none)

  unfoldable pub spec_update_indexes :
      List (Index R PK) → Contents → PK → Option R → R → Outcome Error Contents
  spec_update_indexes [] ct pk old new = ok ct
  spec_update_indexes (i ∷ is) ct pk old new = do
    ct' ← spec_update_index i ct pk old new
    spec_update_indexes is ct' pk old new

  unfoldable pub spec_remove_entries : List (Index R PK) → Contents → PK → R → Contents
  spec_remove_entries [] ct pk item = ct
  spec_remove_entries (i ∷ is) ct pk item =
      spec_remove_entries is (spec_remove_entry i ct pk item) pk item

module _ {R PK : Type 0} (c : Collection R PK) where
  unfoldable pub spec_decode : Option Bytes → Outcome Error (Option R)
  spec_decode none = ok none
  spec_decode (some bytes) = do r ← map_err Error.codec (c.item.from_bytes bytes); ok (some r)

  unfoldable pub spec_find : Contents → PK → Outcome Error (Option R)
  unfolding spec_decode
  spec_find ct pk = spec_decode (ct main_store (c.pk_ops.encode pk))

  -- The record is put under its primary key in the primary store, and the indexes are updated.
  unfoldable pub spec_write : Contents → Option R → R → Outcome Error Contents
  spec_write ct old value = do
    let pk = c.item.key value
    bytes ← map_err Error.codec (c.item.to_bytes value)
    spec_update_indexes c.pk_ops c.indexes
        (put ct main_store (put (ct main_store) (c.pk_ops.encode pk) (some bytes))) pk old value

  -- After the look-up of the key.
  unfoldable pub spec_insert_found : Contents → R → Option Bytes → Outcome Error Contents
  unfolding spec_write
  spec_insert_found ct value (some _) = err (already_exists (c.pk_ops.debug (c.item.key value)))
  spec_insert_found ct value none = spec_write ct none value

  unfoldable pub spec_insert : Contents → R → Outcome Error Contents
  unfolding spec_insert_found
  spec_insert ct value =
      spec_insert_found ct value (ct main_store (c.pk_ops.encode (c.item.key value)))

  -- After the look-up of the old record.
  unfoldable pub spec_update_found : Contents → R → Option R → Outcome Error Contents
  unfolding spec_write
  spec_update_found ct value none = err (not_found (c.pk_ops.debug (c.item.key value)))
  spec_update_found ct value (some old) = spec_write ct (some old) value

  unfoldable pub spec_update : Contents → R → Outcome Error Contents
  unfolding spec_find spec_update_found
  spec_update ct value = do
    found ← spec_find ct (c.item.key value)
    spec_update_found ct value found

  unfoldable pub spec_save : Contents → R → Outcome Error Contents
  unfolding spec_find spec_write
  spec_save ct value = do old ← spec_find ct (c.item.key value); spec_write ct old value

  unfoldable pub spec_remove_found : Contents → PK → Option R → Contents
  spec_remove_found ct pk none = ct
  spec_remove_found ct pk (some r) =
      spec_remove_entries c.pk_ops c.indexes
        (put ct main_store (put (ct main_store) (c.pk_ops.encode pk) none)) (c.item.key r) r

  unfoldable pub spec_remove : Contents → PK → Outcome Error Contents
  unfolding spec_find spec_remove_found
  spec_remove ct pk = do found ← spec_find ct pk; ok (spec_remove_found ct pk found)

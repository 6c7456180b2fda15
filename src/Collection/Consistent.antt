-- ===== src/Collection/Consistent.antt =====
-- The invariant of a collection: every stored record stands under its key, and each index holds
-- exactly one entry for each record, under the physical key of the record.
pub mod IndexStep
pub mod Steps
pub mod Writes
pub mod Records
pub mod Methods
use collette.Prelude.{◌≡◌, ◌≢◌, true, some, List, [], ◌∷◌, All}
use collette.Bytes.{Bytes}
use collette.Outcome.{ok}
use collette.Key.{Key}
use collette.Item.{Item}
use collette.Store.{Content, Contents}
use collette.Index.{Index, entry_key}
use collette.Collection.{Collection, main_store}

module _ {R PK : Type 0} (item : Item R PK) where
  -- The record `r` is stored under the encoded key `kb` of the primary store `m`.
  pub record Holds (m : Content) (kb : Bytes) (r : R) : Type 0 where
    pub bytes : Bytes
    pub there : m kb ≡ some bytes
    pub decodes : item.from_bytes bytes ≡ ok r

  -- The index store `s` is the image of the primary store `m`.
  pub record IndexOk (i : Index R PK) (m s : Content) : Type 0 where
    pub complete : (kb : Bytes) (r : R) → Holds m kb r → s (entry_key i r (item.key r)) ≡ some kb
    pub sound :
        (sk kb : Bytes)
        → s sk ≡ some kb
        → (r : R) × Holds m kb r × (entry_key i r (item.key r) ≡ sk)

  -- Every stored record can be decoded, has a valid key, and stands under it.
  abbrev pub Keyed : Key PK → (PK → Type 0) → Content → Type 0
  Keyed pk_ops ValidKey m =
      (kb bytes : Bytes)
      → m kb ≡ some bytes
      → (r : R) × (item.from_bytes bytes ≡ ok r)
        × (pk_ops.encode (item.key r) ≡ kb)
        × ValidKey (item.key r)

-- The stores of the indexes are different, and none is the primary store.
abbrev pub Distinct : {R PK : Type 0} → List (Index R PK) → Type 0
Distinct [] = Unit
Distinct (i ∷ is) = (i.name ≢ main_store) × All (λ j. i.name ≢ j.name) is × Distinct is

-- The test of physical keys says no more than that they are equal.
abbrev pub TestsKeys : {R PK : Type 0} → Index R PK → Type 0
TestsKeys i = (a b : i.StoreKey) → i.store_ops.beq a b ≡ true → a ≡ b

pub record IsConsistent {R PK : Type 0} (c : Collection R PK) (ValidKey : PK → Type 0)
    (ct : Contents) : Type 0 where
  pub keyed : Keyed c.item c.pk_ops ValidKey (ct main_store)
  pub indexed : All (λ i. IndexOk c.item i (ct main_store) (ct i.name)) c.indexes

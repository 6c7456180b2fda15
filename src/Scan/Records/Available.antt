-- ===== src/Scan/Records/Available.antt =====
-- scan.rs and iter.rs: the scans of a sound collection over an available backend.
use collette.Prelude.{◌≡◌, refl, true, Ordering, List, map, String}
use collette.Prelude.Listings.{All-Mem}
use mathlib.Core.List.{Memᴰ}
use collette.Bytes.{Bytes}
use collette.Outcome.{ok}
use collette.Range.{Range, contains}
use collette.Key
use collette.Key.{Key}
use collette.Index.{Index}
use collette.Map.{is_range}
use collette.Bounds.{exact_encoder, encode_range}
use collette.Bounds.Exact.{AtBound}
use collette.Store.{MultiStore, IsLawful, Direction}
use collette.Store.Available.{Available}
use collette.Store.Listing.{ScansInOrder, all_ok}
use collette.Collection.{Collection, main_store}
use collette.Collection.Session.Sound.{IsSound}
use collette.Scan.{Scan, full, directed, compile, range}
use collette.Scan.Open.{
  Entry, CollectionIterator, IndexIterator, ScanExecutor, next_stored, next_indexed,
  open_collection, open_index, iter, scan, index_scan,
}
use collette.Scan.Records.{Drains, ListsRecords}
use collette.Scan.Records.Primary.{StoredIn, place, scan-ListsRecords}
use collette.Scan.Records.Secondary.{BoundsFit, index_place, index_scan-ListsRecords}

module _ (b : MultiStore) (law : IsLawful b) (av : Available b) (l : ScansInOrder b law)
    {R PK P : Type 0} (c : Collection R PK) (db : b.Db) {ValidKey : PK → Type 0}
    (sound : IsSound b law av l c ValidKey db) (kp : Key P) (d : Direction) where
  module _ {cmp : PK → PK → Ordering} (keys : Key.IsLawful c.pk_ops cmp ValidKey) (r : Range PK)
      (valid_start : AtBound ValidKey r.0) (valid_end : AtBound ValidKey r.1)
      (scannable : is_range (encode_range (exact_encoder c.pk_ops) r) ≡ true) where
    -- Over a backend that keeps its contract, is available, and lists its stores in order: in a
    -- sound collection, which has its stores, and in which every record stands under its key with
    -- exactly one entry in each index, with lawful primary keys, if the encoding of a range of
    -- valid keys can be scanned, then the scan of the range is built and opened, in either
    -- direction, and its iterator returns no error, and each stored record whose key is in the
    -- range exactly once, in the order of the encoded keys and the direction, with the cursor of
    -- its key.
    pub ready_scan-ListsRecords :
        (s : Scan (ScanExecutor b c.item) P) × (it : CollectionIterator b c.item) × (found : List
          (Entry R))
        × (scan b c db ≡ ok s)
        × (iter b c.item kp
              (open_collection b c.item)
              (directed d (range (exact_encoder c.pk_ops) r s))
            ≡ ok it)
        × Drains (next_stored b c.item) it (map ok found)
        × ListsRecords
            (StoredIn c (law.stored db c.name main_store))
            (place c)
            (λ x. contains cmp r (c.item.key x))
            d
            found
    unfolding scan iter compile range open_collection
    ready_scan-ListsRecords =
        let (h, e, has) = av.read_returns db c.name main_store sound.ready.main in
        let (store, e1) = av.open_read_returns h main_store (has main_store sound.ready.main) in
        let (entries, e2) =
          av.scan_returns store (encode_range (exact_encoder c.pk_ops) r) d scannable in
        let s : Scan (ScanExecutor b c.item) P =
          full (record { collection_name = main_store; read_handle = h }) in
        let started : scan b c db ≡ ok s = rw e refl in
        let it : CollectionIterator b c.item = record { inner = all_ok entries } in
        let opened : iter b c.item kp (open_collection b c.item)
              (directed d (range (exact_encoder c.pk_ops) r s))
            ≡ ok it =
          rw (e1, e2) refl in
        let (found, drains, listed) =
          scan-ListsRecords b law l c db keys sound.ordered sound.consistent r valid_start valid_end
            d kp entries started opened refl in
        (s, it, found, started, opened, drains, listed)

  module _ (missing : Bytes → String) (i : Index R PK) (registered : Memᴰ i c.indexes)
      (cmp : i.IndexKey → i.IndexKey → Ordering) (IsValid : i.IndexKey → PK → Type 0)
      (valid : (x : R)
        → StoredIn c (law.stored db c.name main_store) x
        → IsValid (i.key x) (c.item.key x))
      (r : Range i.IndexKey) (fits : BoundsFit i IsValid cmp r)
      (scannable : is_range (encode_range i.kind.bounds r) ≡ true) where
    -- Over a backend that keeps its contract, is available, and lists its stores in order: in a
    -- sound collection, which has its stores, and in which every record stands under its key with
    -- exactly one entry in each index, with valid index keys, if a range of a registered index is
    -- encoded so that it fits the typed range, and can be scanned, then the scan of the range is
    -- built and opened, in either direction, and its iterator returns no error, and each stored
    -- record whose index key is in the range exactly once, in the order of the index entries and
    -- the direction, with the cursor of its entry.
    pub ready_index_scan-ListsRecords :
        (s : Scan (ScanExecutor b c.item) P) × (it : IndexIterator b c.item) × (found : List
          (Entry R))
        × (index_scan b c i db ≡ ok s)
        × (iter b c.item kp (open_index b c.item i) (directed d (range i.kind.bounds r s)) ≡ ok it)
        × Drains (next_indexed b c.item missing) it (map ok found)
        × ListsRecords
            (StoredIn c (law.stored db c.name main_store))
            (index_place c i)
            (λ x. contains cmp r (i.key x))
            d
            found
    unfolding index_scan iter compile range open_index
    ready_index_scan-ListsRecords =
        let there = All-Mem (λ j. av.Has db c.name j.name) sound.ready.indexed registered in
        let (h, e, has) = av.read_returns db c.name main_store sound.ready.main in
        let (store, e1) = av.open_read_returns h i.name (has i.name there) in
        let (entries, e2) = av.scan_returns store (encode_range i.kind.bounds r) d scannable in
        let (primary, e3) = av.open_read_returns h main_store (has main_store sound.ready.main) in
        let s : Scan (ScanExecutor b c.item) P =
          full (record { collection_name = main_store; read_handle = h }) in
        let started : index_scan b c i db ≡ ok s = rw e refl in
        let it : IndexIterator b c.item = record {
          inner = all_ok entries;
          primary_store = primary;
        } in
        let opened : iter b c.item kp (open_index b c.item i) (directed d (range i.kind.bounds r s))
            ≡ ok it =
          rw (e1, e2, e3) refl in
        let (found, drains, listed) =
          index_scan-ListsRecords b law l c db missing av.get_returns sound.ordered sound.consistent
            i registered cmp IsValid valid r fits d kp entries started opened refl in
        (s, it, found, started, opened, drains, listed)

-- ===== src/Collection/InMemory/Sessions.antt =====
-- collection.rs and scan.rs over backend/memory.rs: the scans of a collection after its build in a
-- fresh namespace and any calls of its methods.
use collette.Prelude.{◌≡◌, ◌≢◌, fun_ext, true, none, List, All, Ordering, map}
use collette.Bytes.{Bytes}
use mathlib.Core.Path.{subst}
use collette.Outcome.{ok, panic}
use collette.Range.{Range, contains}
use collette.Key
use collette.Key.{Key}
use collette.Map
use collette.Map.{is_range}
use collette.Bounds.{exact_encoder, encode_range}
use collette.Bounds.Exact.{AtBound}
use collette.Store.{Direction, Contents}
use collette.Memory.{memory, Namespaces}
use collette.Memory.Contract.{memory_law, stored}
use collette.Memory.Listing.{SortedNamespaces}
use collette.Collection.{Collection, main_store, build}
use collette.Collection.Consistent.{Distinct, TestsKeys}
use collette.Collection.Session.{Command, IsValidCommand, session}
use collette.Memory.Available.{memory_available}
use collette.Memory.Listing.{memory_listing}
use collette.Collection.Session.Fresh.{built-IsSound, built-IsEmpty}
use collette.Collection.Session.Specified.{spec_session}
use collette.Scan.{Scan, directed, range}
use collette.Scan.Open.{
  Entry, CollectionIterator, ScanExecutor, next_stored, open_collection, iter, scan,
}
use collette.Scan.Records.{Drains, ListsRecords}
use collette.Scan.Records.Primary.{StoredIn, place}
use collette.Collection.Session.Scanned.{session-scan-ListsRecords}

-- The contents of stores that hold nothing.
abbrev pub nothing : Contents
nothing n k = none

module _ {R PK : Type 0} (c : Collection R PK) {cmp : PK → PK → Ordering} {ValidKey : PK → Type 0}
    (keys : Key.IsLawful c.pk_ops cmp ValidKey) (distinct : Distinct c.indexes)
    (tests : All TestsKeys c.indexes)
    (codec : (r : R) (bytes : Bytes)
      → c.item.to_bytes r ≡ ok bytes
      → c.item.from_bytes bytes ≡ ok r)
    (to_bytes_returns : (r : R) → c.item.to_bytes r ≢ panic)
    (from_bytes_returns : (bytes : Bytes) → c.item.from_bytes bytes ≢ panic) where
  module _ (db : Namespaces) (fresh : Map.get db c.name ≡ none) (sorted : SortedNamespaces db)
      (calls : List (Command R PK)) (valid : All (IsValidCommand c ValidKey) calls) (r : Range PK)
      (valid_start : AtBound ValidKey r.0) (valid_end : AtBound ValidKey r.1)
      (scannable : is_range (encode_range (exact_encoder c.pk_ops) r) ≡ true) {P : Type 0}
      (kp : Key P) (d : Direction) where
    -- For lawful primary keys, different index names, an exact test of physical keys, and a codec
    -- that round-trips and does not panic: if the encoding of a range of valid keys can be
    -- scanned, then a collection whose namespace is new to a memory backend with sorted stores can
    -- be built, any sequence of inserts, updates, saves and removes of valid keys runs on it,
    -- where a call that fails changes nothing, and the scan of what is left returns no error, and
    -- each record that the specification of the calls stores, with its key in the range, exactly
    -- once, in the order of the encoded keys and the direction, with the cursor of its key.
    pub fresh_session-scan-ListsRecords :
        (built : Namespaces) × (left : Namespaces) × (build memory c db ≡ ok built)
        × (session memory c built calls ≡ ok left)
        × (s : Scan (ScanExecutor memory c.item) P) × (it : CollectionIterator memory c.item)
        × (found : List (Entry R)) × (scan memory c left ≡ ok s)
        × (iter memory c.item kp
              (open_collection memory c.item)
              (directed d (range (exact_encoder c.pk_ops) r s))
            ≡ ok it)
        × Drains (next_stored memory c.item) it (map ok found)
        × ListsRecords
            (StoredIn c (spec_session c nothing calls main_store))
            (place c)
            (λ x. contains cmp r (c.item.key x))
            d
            found
    unfolding memory_law memory_listing
    fresh_session-scan-ListsRecords =
        let (built, e, sound) = built-IsSound c db fresh ValidKey sorted in
        let (left, e', s, it, found, e1, e2, drains, listed) =
          session-scan-ListsRecords memory memory_law memory_available memory_listing c keys
            distinct tests codec to_bytes_returns from_bytes_returns built sound calls valid r
            valid_start valid_end scannable kp d in
        let empty : stored built c.name ≡ nothing =
          fun_ext λ n. fun_ext λ k. built-IsEmpty c db fresh built e n k in
        (
          built,
          left,
          e,
          e',
          s,
          it,
          found,
          e1,
          e2,
          drains,
          subst
              (λ ct.
                ListsRecords (StoredIn c (spec_session c ct calls main_store)) (place c)
                  (λ x. contains cmp r (c.item.key x)) d found)
              empty listed,
        )

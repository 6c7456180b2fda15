-- ===== src/Collection/Session/Scanned.antt =====
-- collection.rs and scan.rs: the scans of a collection after any calls of its methods.
use collette.Prelude.{◌≡◌, ◌≢◌, sym, ◌∙◌, ap, true, List, All, Ordering, map}
use collette.Bytes.{Bytes}
use mathlib.Core.Path.{subst}
use collette.Outcome.{ok, panic, ok_injective}
use collette.Range.{Range, contains}
use collette.Key
use collette.Key.{Key}
use collette.Map.{is_range}
use collette.Bounds.{exact_encoder, encode_range}
use collette.Bounds.Exact.{AtBound}
use collette.Store.{MultiStore, IsLawful, Direction}
use collette.Store.Available.{Available}
use collette.Store.Listing.{ScansInOrder}
use collette.Collection.{Collection, main_store}
use collette.Collection.Consistent.{Distinct, TestsKeys}
use collette.Collection.Session.{Command, IsValidCommand, session}
use collette.Collection.Session.Sound.{IsSound, session-IsSound}
use collette.Collection.Session.Specified.{spec_session, session-specified}
use collette.Collection.Runs.{shown_as}
use collette.Scan.{Scan, directed, range}
use collette.Scan.Open.{
  Entry, CollectionIterator, ScanExecutor, next_stored, open_collection, iter, scan,
}
use collette.Scan.Records.{Drains, ListsRecords}
use collette.Scan.Records.Primary.{StoredIn, place}
use collette.Scan.Records.Available.{ready_scan-ListsRecords}

module _ (b : MultiStore) (law : IsLawful b) (av : Available b) (l : ScansInOrder b law)
    {R PK : Type 0} (c : Collection R PK) {cmp : PK → PK → Ordering} {ValidKey : PK → Type 0}
    (keys : Key.IsLawful c.pk_ops cmp ValidKey) (distinct : Distinct c.indexes)
    (tests : All TestsKeys c.indexes)
    (codec : (r : R) (bytes : Bytes)
      → c.item.to_bytes r ≡ ok bytes
      → c.item.from_bytes bytes ≡ ok r)
    (to_bytes_returns : (r : R) → c.item.to_bytes r ≢ panic)
    (from_bytes_returns : (bytes : Bytes) → c.item.from_bytes bytes ≢ panic) where
  module _ (db : b.Db) (sound : IsSound b law av l c ValidKey db) (calls : List (Command R PK))
      (valid : All (IsValidCommand c ValidKey) calls) (r : Range PK)
      (valid_start : AtBound ValidKey r.0) (valid_end : AtBound ValidKey r.1)
      (scannable : is_range (encode_range (exact_encoder c.pk_ops) r) ≡ true) {P : Type 0}
      (kp : Key P) (d : Direction) where
    pub session-scan-ListsRecords :
        (left : b.Db) × (session b c db calls ≡ ok left)
        × (s : Scan (ScanExecutor b c.item) P) × (it : CollectionIterator b c.item) × (found : List
            (Entry R))
        × (scan b c left ≡ ok s)
        × (iter b c.item kp
              (open_collection b c.item)
              (directed d (range (exact_encoder c.pk_ops) r s))
            ≡ ok it)
        × Drains (next_stored b c.item) it (map ok found)
        × ListsRecords
            (StoredIn c (spec_session c (law.stored db c.name) calls main_store))
            (place c)
            (λ x. contains cmp r (c.item.key x))
            d
            found
    session-scan-ListsRecords =
        let (left, e, sound') =
          session-IsSound b law av l c keys distinct tests codec to_bytes_returns from_bytes_returns
            db calls sound valid in
        let (s, it, found, e1, e2, drains, listed) =
          ready_scan-ListsRecords b law av l c left sound' kp d keys r valid_start valid_end
            scannable in
        let specified = ok_injective (
          ap (shown_as (λ d. law.stored d c.name)) (sym e)
          ∙ session-specified b law av l c keys distinct tests codec to_bytes_returns
              from_bytes_returns db calls sound valid) in
        (
          left,
          e,
          s,
          it,
          found,
          e1,
          e2,
          drains,
          subst
              (λ ct.
                ListsRecords (StoredIn c (ct main_store)) (place c)
                  (λ x. contains cmp r (c.item.key x)) d found)
              specified listed,
        )

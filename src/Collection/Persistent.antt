-- ===== src/Collection/Persistent.antt =====
-- collection.rs over backend/redb.rs: a database file that is opened again.
use collette.Prelude.{◌≡◌, ◌≢◌, sym, ap, true, List, All, Ordering, map}
use mathlib.Core.Path.{subst}
use collette.Bytes.{Bytes}
use collette.Outcome.{ok, panic}
use collette.Range.{Range, contains}
use collette.Key
use collette.Key.{Key}
use collette.Map.{is_range}
use collette.Bounds.{exact_encoder, encode_range}
use collette.Bounds.Exact.{AtBound}
use collette.Store.{Direction}
use collette.Redb.{Engine, RedbMultiStore, redb}
use collette.Redb.Contract.{redb_law, stored}
use collette.Redb.Promises.{EngineContract}
use collette.Redb.Listing.{redb_listing}
use collette.Redb.Prepared.{prepare-stored}
use collette.Redb.Available.{redb-Available}
use collette.Redb.Returns.{EngineReturns}
use collette.Collection.{Collection, main_store, build}
use collette.Collection.Consistent.{IsConsistent, Distinct, TestsKeys}
use collette.Collection.Available.Build.{build-IsReady}
use collette.Collection.Keeps.{prepared-Keeps}
use collette.Collection.Session.{Command, IsValidCommand, session}
use collette.Collection.Session.Sound.{IsSound}
use collette.Collection.Session.Scanned.{session-scan-ListsRecords}
use collette.Collection.Session.Specified.{spec_session}
use collette.Scan.{Scan, directed, range}
use collette.Scan.Open.{
  Entry, CollectionIterator, ScanExecutor, next_stored, open_collection, iter, scan,
}
use collette.Scan.Records.{Drains, ListsRecords}
use collette.Scan.Records.Primary.{StoredIn, place}

module _ (e : Engine) (contract : EngineContract e) (returns : EngineReturns e) {R PK : Type 0}
    (c : Collection R PK) where
  abbrev pub IsSoundOnDisk : (PK → Type 0) → RedbMultiStore e → Type 0
  IsSoundOnDisk ValidKey =
      IsSound (redb e) (redb_law e contract) (redb-Available e returns) (redb_listing e contract) c
        ValidKey

  -- If the redb crate keeps its promises and its calls return: building a collection on a database
  -- whose records and indexes agree, whatever stores were prepared before, succeeds, keeps what
  -- all stores hold, and leaves the collection sound.
  pub reopened-IsSound :
      {ValidKey : PK → Type 0} (s : RedbMultiStore e)
      → IsConsistent c ValidKey (stored e contract s c.name)
      → (built : RedbMultiStore e) × (build (redb e) c s ≡ ok built)
        × (stored e contract built ≡ stored e contract s)
        × IsSoundOnDisk ValidKey built
  unfolding redb_law redb_listing
  reopened-IsSound {ValidKey} s consistent =
      let (built, q, ready) = build-IsReady (redb e) (redb-Available e returns) c s in
      let same =
        (prepared-Keeps (redb e) c s (λ d p. prepare-stored e contract s c.name _ p)).kept built
          q in
      (
        built,
        q,
        same,
        record {
          ready = ready;
          ordered = tt;
          consistent = subst (λ f. IsConsistent c ValidKey (f c.name)) (sym same) consistent;
        },
      )

  module _ {cmp : PK → PK → Ordering} {ValidKey : PK → Type 0}
      (keys : Key.IsLawful c.pk_ops cmp ValidKey) (distinct : Distinct c.indexes)
      (tests : All TestsKeys c.indexes)
      (codec : (r : R) (bytes : Bytes)
        → c.item.to_bytes r ≡ ok bytes
        → c.item.from_bytes bytes ≡ ok r)
      (to_bytes_returns : (r : R) → c.item.to_bytes r ≢ panic)
      (from_bytes_returns : (bytes : Bytes) → c.item.from_bytes bytes ≢ panic)
      (s : RedbMultiStore e) (consistent : IsConsistent c ValidKey (stored e contract s c.name))
      (calls : List (Command R PK)) (valid : All (IsValidCommand c ValidKey) calls) (r : Range PK)
      (valid_start : AtBound ValidKey r.0) (valid_end : AtBound ValidKey r.1)
      (scannable : is_range (encode_range (exact_encoder c.pk_ops) r) ≡ true) {P : Type 0}
      (kp : Key P) (d : Direction) where
    -- If the redb crate keeps its promises and its calls return, for lawful primary keys,
    -- different index names, an exact test of physical keys, a codec that round-trips and does not
    -- panic, and a range of valid keys whose encoding can be scanned: on a database whose records
    -- and indexes agree, whatever stores were prepared before, the collection can be built, any
    -- sequence of inserts, updates, saves and removes of valid keys runs on it, where a call that
    -- fails changes nothing, and the scan of what is left returns no error, and each record that
    -- the specification of the calls stores on top of what the database held, with its key in the
    -- range, exactly once, in the order of the encoded keys and the direction, with the cursor of
    -- its key.
    pub reopened_session-scan-ListsRecords :
        (built : RedbMultiStore e) × (left : RedbMultiStore e) × (build (redb e) c s ≡ ok built)
        × (session (redb e) c built calls ≡ ok left)
        × (x : Scan (ScanExecutor (redb e) c.item) P) × (it : CollectionIterator (redb e) c.item)
        × (found : List (Entry R)) × (scan (redb e) c left ≡ ok x)
        × (iter
              (redb e)
              c.item
              kp
              (open_collection (redb e) c.item)
              (directed d (range (exact_encoder c.pk_ops) r x))
            ≡ ok it)
        × Drains (next_stored (redb e) c.item) it (map ok found)
        × ListsRecords
            (StoredIn c (spec_session c (stored e contract s c.name) calls main_store))
            (place c)
            (λ x. contains cmp r (c.item.key x))
            d
            found
    unfolding redb_law
    reopened_session-scan-ListsRecords =
        let (built, q, same, sound) = reopened-IsSound s consistent in
        let (left, q', x, it, found, e1, e2, drains, listed) =
          session-scan-ListsRecords (redb e) (redb_law e contract) (redb-Available e returns)
            (redb_listing e contract) c keys distinct tests codec to_bytes_returns
            from_bytes_returns built sound calls valid r valid_start valid_end scannable kp d in
        (
          built,
          left,
          q,
          q',
          x,
          it,
          found,
          e1,
          e2,
          drains,
          subst
              (λ ct.
                ListsRecords (StoredIn c (spec_session c ct calls main_store)) (place c)
                  (λ x. contains cmp r (c.item.key x)) d found)
              (ap (λ f. f c.name) same) listed,
        )

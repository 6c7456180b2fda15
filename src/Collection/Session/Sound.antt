-- ===== src/Collection/Session/Sound.antt =====
-- collection.rs over an available backend: what holds of a collection through any sequence of calls.
use collette.Prelude.{◌≡◌, ◌≢◌, refl, List, [], ◌∷◌, All, Ordering}
use collette.Bytes.{Bytes}
use collette.Outcome.{Outcome, Error, ok, panic}
use collette.Key
use collette.Store.{MultiStore, IsLawful}
use collette.Store.Listing.{ScansInOrder}
use collette.Store.Available.{Available}
use collette.Collection.{Collection}
use collette.Collection.Consistent.{IsConsistent, Distinct, TestsKeys}
use collette.Collection.Keeps.{Keeps}
use collette.Collection.Runs.{Runs, returns, fails}
use collette.Collection.Available.Methods.{
  IsReady, insert-Runs, update-Runs, save-Runs, remove-Runs,
}
use collette.Collection.Session.{
  Command, inserting, updating, saving, removing, IsValidCommand, perform, session, go_on,
  perform-Keeps, perform-IsConsistent,
}

module _ (b : MultiStore) (law : IsLawful b) (av : Available b) (l : ScansInOrder b law)
    {R PK : Type 0} (c : Collection R PK) (ValidKey : PK → Type 0) where
  -- The collection has its stores, the database keeps the backend's invariant, and the records and
  -- the indexes agree.
  pub record IsSound (db : b.Db) : Type 0 where
    pub ready : IsReady b av c db
    pub ordered : l.OkDb db
    pub consistent : IsConsistent c ValidKey (law.stored db c.name)

  -- A computation that runs returns what it keeps too.
  Runs-Sound :
      {m : Outcome Error b.Db}
      → Runs (IsReady b av c) m
      → Keeps l.OkDb m
      → Keeps (λ d. IsConsistent c ValidKey (law.stored d c.name)) m
      → Runs IsSound m
  Runs-Sound (returns d p) s k =
      returns d (record { ready = p; ordered = s.kept d refl; consistent = k.kept d refl })
  Runs-Sound (fails e q) s k = fails e q

module _ (b : MultiStore) (law : IsLawful b) (av : Available b) (l : ScansInOrder b law)
    {R PK : Type 0} (c : Collection R PK) {cmp : PK → PK → Ordering} {ValidKey : PK → Type 0}
    (keys : Key.IsLawful c.pk_ops cmp ValidKey) (distinct : Distinct c.indexes)
    (tests : All TestsKeys c.indexes)
    (codec : (r : R) (bytes : Bytes)
      → c.item.to_bytes r ≡ ok bytes
      → c.item.from_bytes bytes ≡ ok r)
    (to_bytes_returns : (r : R) → c.item.to_bytes r ≢ panic)
    (from_bytes_returns : (bytes : Bytes) → c.item.from_bytes bytes ≢ panic) where
  perform-Runs :
      (db : b.Db) (call : Command R PK)
      → IsReady b av c db
      → Runs (IsReady b av c) (perform b c db call)
  unfolding perform
  perform-Runs db (inserting value) p =
      insert-Runs b av c to_bytes_returns from_bytes_returns db p value
  perform-Runs db (updating value) p =
      update-Runs b av c to_bytes_returns from_bytes_returns db p value
  perform-Runs db (saving value) p = save-Runs b av c to_bytes_returns from_bytes_returns db p value
  perform-Runs db (removing pk) p = remove-Runs b av c to_bytes_returns from_bytes_returns db p pk

  pub perform-IsSound :
      (db : b.Db) (call : Command R PK)
      → IsSound b law av l c ValidKey db
      → IsValidCommand c ValidKey call
      → Runs (IsSound b law av l c ValidKey) (perform b c db call)
  perform-IsSound db call h v =
      Runs-Sound b law av l c ValidKey (perform-Runs db call h.ready)
        (perform-Keeps b law l c db call h.ordered)
        (perform-IsConsistent c keys distinct tests codec b law db call h.consistent v)

  -- What the session does from the outcome of a call on, where every sound database can go on.
  continued :
      (db : b.Db) (calls : List (Command R PK)) {m : Outcome Error b.Db}
      → IsSound b law av l c ValidKey db
      → ((d : b.Db)
          → IsSound b law av l c ValidKey d
          → (db' : b.Db) × (session b c d calls ≡ ok db') × IsSound b law av l c ValidKey db')
      → Runs (IsSound b law av l c ValidKey) m
      → (db' : b.Db) × (go_on b c db calls m ≡ ok db') × IsSound b law av l c ValidKey db'
  unfolding session
  continued db calls h next (returns d k) = next d k
  continued db calls h next (fails e q) = next db h

  -- For lawful primary keys, different index names, an exact test of physical keys, and a codec
  -- that round-trips and does not panic: over a backend that keeps its contract, is available, and
  -- lists its stores in order, if the stores of the collection are there, the backend's own
  -- invariant holds, and every record stands under its key with exactly one entry in each index,
  -- then no call in any sequence of inserts, updates, saves and removes of valid keys panics,
  -- where a call that fails changes nothing, and the same holds of the database that is left.
  pub session-IsSound :
      (db : b.Db) (calls : List (Command R PK))
      → IsSound b law av l c ValidKey db
      → All (IsValidCommand c ValidKey) calls
      → (db' : b.Db) × (session b c db calls ≡ ok db') × IsSound b law av l c ValidKey db'
  unfolding session
  session-IsSound db [] h v = (db, refl, h)
  session-IsSound db (call ∷ calls) h v =
      continued db calls h (λ d k. session-IsSound d calls k v.1) (perform-IsSound db call h v.0)

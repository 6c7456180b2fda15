-- ===== src/Collection/Session.antt =====
-- collection.rs: sequences of calls of the methods of a collection.
pub mod Sound
pub mod Fresh
pub mod Scanned
pub mod Specified
use collette.Prelude.{◌≡◌, refl, List, [], ◌∷◌, All, Ordering}
use mathlib.Core.Path.{subst}
use collette.Bytes.{Bytes}
use collette.Outcome.{Outcome, Error, ok, err, panic, ok_injective}
use collette.Key
use collette.Map
use collette.Store.Listing.{ScansInOrder}
use collette.Store.{IsLawful, MultiStore}
use collette.Memory
use collette.Collection
use collette.Collection.{Collection, insert, update, save}
use collette.Collection.Consistent.{IsConsistent, Distinct, TestsKeys}
use collette.Collection.Consistent.Methods.{
  insert-IsConsistent, update-IsConsistent, save-IsConsistent, remove-IsConsistent,
}
use collette.Collection.Keeps.{Keeps, insert-Keeps, update-Keeps, save-Keeps, remove-Keeps}

-- A call of a method that may change the database.
pub data Command (R PK : Type 0) : Type 0 where
  inserting : R → Command R PK
  updating : R → Command R PK
  saving : R → Command R PK
  removing : PK → Command R PK

module _ {R PK : Type 0} (b : MultiStore) (c : Collection R PK) where
  unfoldable pub perform : b.Db → Command R PK → Outcome Error b.Db
  perform db (inserting value) = insert b c db value
  perform db (updating value) = update b c db value
  perform db (saving value) = save b c db value
  perform db (removing pk) = Collection.remove b c db pk

  -- The calls are made in order, and one that fails leaves the database as it was.
  unfoldable pub session : b.Db → List (Command R PK) → Outcome Error b.Db
  unfolding perform
  session db [] = ok db
  session db (call ∷ calls) = elim (perform db call) [
    | ok db' ↦ session db' calls
    | err e ↦ session db calls
    | panic ↦ panic
  ]

  abbrev pub go_on : b.Db → List (Command R PK) → Outcome Error b.Db → Outcome Error b.Db
  go_on db calls m = elim m [
    | ok db' ↦ session db' calls
    | err e ↦ session db calls
    | panic ↦ panic
  ]

-- The records that the call brings in have valid keys.
abbrev pub IsValidCommand :
    {R PK : Type 0} → Collection R PK → (PK → Type 0) → Command R PK → Type 0
IsValidCommand c ValidKey (inserting value) = ValidKey (c.item.key value)
IsValidCommand c ValidKey (updating value) = ValidKey (c.item.key value)
IsValidCommand c ValidKey (saving value) = ValidKey (c.item.key value)
IsValidCommand c ValidKey (removing pk) = Unit

-- The invariant of the backend and that of the collection, through a call, over any backend.
module _ {R PK : Type 0} (b : MultiStore) (law : IsLawful b) (l : ScansInOrder b law)
    (c : Collection R PK) where
  pub perform-Keeps :
      (db : b.Db) (call : Command R PK) → l.OkDb db → Keeps l.OkDb (perform b c db call)
  unfolding perform
  perform-Keeps db (inserting value) h = insert-Keeps b law l c db h value
  perform-Keeps db (updating value) h = update-Keeps b law l c db h value
  perform-Keeps db (saving value) h = save-Keeps b law l c db h value
  perform-Keeps db (removing pk) h = remove-Keeps b law l c db h pk

module _ {R PK : Type 0} (c : Collection R PK) {cmp : PK → PK → Ordering} {ValidKey : PK → Type 0}
    (keys : Key.IsLawful c.pk_ops cmp ValidKey) (distinct : Distinct c.indexes)
    (tests : All TestsKeys c.indexes)
    (codec : (r : R) (bytes : Bytes)
      → c.item.to_bytes r ≡ ok bytes
      → c.item.from_bytes bytes ≡ ok r)
    (b : MultiStore) (law : IsLawful b) where
  abbrev Consistent : b.Db → Type 0
  Consistent d = IsConsistent c ValidKey (law.stored d c.name)

  pub perform-IsConsistent :
      (db : b.Db) (call : Command R PK)
      → Consistent db
      → IsValidCommand c ValidKey call
      → Keeps Consistent (perform b c db call)
  unfolding perform
  perform-IsConsistent db (inserting value) h v = record {
    kept = λ d e. insert-IsConsistent c keys distinct tests codec b law db d h value v e;
  }
  perform-IsConsistent db (updating value) h v = record {
    kept = λ d e. update-IsConsistent c keys distinct tests codec b law db d h value v e;
  }
  perform-IsConsistent db (saving value) h v = record {
    kept = λ d e. save-IsConsistent c keys distinct tests codec b law db d h value v e;
  }
  perform-IsConsistent db (removing pk) h v = record {
    kept = λ d e. remove-IsConsistent c keys distinct tests codec b law db d h pk e;
  }

  continued-Consistent :
      (db : b.Db) (calls : List (Command R PK)) (m : Outcome Error b.Db)
      → Consistent db
      → Keeps Consistent m
      → ((d : b.Db) → Consistent d → Keeps Consistent (session b c d calls))
      → Keeps Consistent (go_on b c db calls m)
  unfolding session
  continued-Consistent db calls (ok d) h k next = next d (k.kept d refl)
  continued-Consistent db calls (err e) h k next = next db h
  continued-Consistent db calls panic h k next = record { kept = λ a e. absurd (cc) }

  session-Consistent :
      (db : b.Db) (calls : List (Command R PK))
      → Consistent db
      → All (IsValidCommand c ValidKey) calls
      → Keeps Consistent (session b c db calls)
  unfolding session
  session-Consistent db [] h v = record { kept = λ d e. subst Consistent (ok_injective e) h }
  session-Consistent db (call ∷ calls) h v =
      continued-Consistent db calls (perform b c db call) h (perform-IsConsistent db call h v.0)
        (λ d k. session-Consistent d calls k v.1)

  -- For lawful primary keys, different index names, an exact test of physical keys and a codec
  -- that round-trips: over any backend that keeps its contract, after any sequence of inserts,
  -- updates, saves and removes of valid keys that does not panic, where a call that fails changes
  -- nothing, every record stands under its key and every index holds exactly one entry for each
  -- record, if that held before.
  pub session-IsConsistent :
      (db db' : b.Db) (calls : List (Command R PK))
      → IsConsistent c ValidKey (law.stored db c.name)
      → All (IsValidCommand c ValidKey) calls
      → session b c db calls ≡ ok db'
      → IsConsistent c ValidKey (law.stored db' c.name)
  session-IsConsistent db db' calls h v e = (session-Consistent db calls h v).kept db' e

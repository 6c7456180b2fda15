-- ===== src/Store/Available.antt =====
-- store.rs: backends whose calls return, on what has been prepared.
use collette.Prelude.{◌≡◌, true, Option, List, All}
use collette.Bytes.{Bytes}
use collette.Outcome.{ok}
use collette.Range.{Range}
use collette.Map.{is_range}
use collette.Store.{MultiStore, Name, Direction}
use collette.Store.Listing.{all_ok}

-- A call on a namespace and a store that are prepared succeeds, and keeps them prepared.
pub record Available (b : MultiStore) : Type 1 where
  -- The namespace has the store; a handle has it; a handle was begun on the database, for the
  -- namespace.
  pub Has : b.Db → Name → Name → Type 0
  pub ReadHas : b.ReadHandle → Name → Type 0
  pub WriteHas : b.WriteHandle → Name → Type 0
  pub BegunFor : b.Db → Name → b.WriteHandle → Type 0
  pub prepare_returns :
      (d : b.Db) (n : Name) (names : List Name)
      → (d' : b.Db) × (b.prepare d n names ≡ ok d') × All (Has d' n) names
  pub read_returns :
      (d : b.Db) (n m : Name)
      → Has d n m
      → (h : b.ReadHandle) × (b.read d n ≡ ok h) × ((k : Name) → Has d n k → ReadHas h k)
  pub open_read_returns :
      (h : b.ReadHandle) (n : Name) → ReadHas h n → (s : b.ReadStore) × (b.open_read h n ≡ ok s)
  pub get_returns : (s : b.ReadStore) (k : Bytes) → (v : Option Bytes) × (b.get s k ≡ ok v)
  pub scan_returns :
      (s : b.ReadStore) (r : Range Bytes) (d : Direction)
      → is_range r ≡ true
      → (entries : List (Bytes × Bytes)) × (b.scan s r d ≡ ok (all_ok entries))
  pub write_returns :
      (d : b.Db) (n m : Name)
      → Has d n m
      → (w : b.WriteHandle) × (b.write d n ≡ ok w)
        × BegunFor d n w
        × ((k : Name) → Has d n k → WriteHas w k)
  pub open_write_returns :
      (w : b.WriteHandle) (n : Name) → WriteHas w n → (s : b.WriteStore) × (b.open_write w n ≡ ok s)
  pub get_staged_returns :
      (s : b.WriteStore) (k : Bytes) → (v : Option Bytes) × (b.get_staged s k ≡ ok v)
  pub set_returns : (s : b.WriteStore) (k v : Bytes) → (s' : b.WriteStore) × (b.set s k v ≡ ok s')
  pub remove_returns : (s : b.WriteStore) (k : Bytes) → (s' : b.WriteStore) × (b.remove s k ≡ ok s')
  pub close_keeps :
      (w : b.WriteHandle) (n : Name) (s : b.WriteStore) (k : Name)
      → WriteHas w k
      → WriteHas (b.close w n s) k
  pub close_begun :
      (d : b.Db) (n m : Name) (w : b.WriteHandle) (s : b.WriteStore)
      → BegunFor d n w
      → BegunFor d n (b.close w m s)
  pub commit_returns :
      (d : b.Db) (n : Name) (w : b.WriteHandle)
      → BegunFor d n w
      → (d' : b.Db) × (b.commit d w ≡ ok d') × ((k : Name) → WriteHas w k → Has d' n k)

-- ===== src/Redb/Returns.antt =====
-- Calls of the redb crate that return, as a hypothesis of backend/redb.rs.
use collette.Prelude.{◌≡◌, true, Option, List}
use collette.Bytes.{Bytes}
use collette.Outcome.{ok}
use collette.Range.{Range}
use collette.Map.{is_range}
use collette.Store.Listing.{all_ok}
use collette.Redb.{Engine, TableName}

-- Calls of the crate that meet no failing disk: all return, but a table can be opened for reading
-- only if it exists, as it does once a transaction has committed in which it was opened.
pub record EngineReturns (e : Engine) : Type 1 where
  pub Exists : e.Database → TableName → Type 0
  pub ReadExists : e.ReadTransaction → TableName → Type 0
  pub WriteExists : e.WriteTransaction → TableName → Type 0
  pub begin_read_returns :
      (d : e.Database)
      → (t : e.ReadTransaction) × (e.begin_read d ≡ ok t)
        × ((n : TableName) → Exists d n → ReadExists t n)
  pub begin_write_returns :
      (d : e.Database)
      → (t : e.WriteTransaction) × (e.begin_write d ≡ ok t)
        × ((n : TableName) → Exists d n → WriteExists t n)
  pub open_read_returns :
      (t : e.ReadTransaction) (n : TableName)
      → ReadExists t n
      → (s : e.ReadTable) × (e.open_read_table t n ≡ ok s)
  pub open_write_returns :
      (t : e.WriteTransaction) (n : TableName)
      → (s : e.WriteTable) × (e.open_write_table t n ≡ ok s)
  pub close_creates :
      (t : e.WriteTransaction) (n : TableName) (s : e.WriteTable)
      → WriteExists (e.close_table t n s) n
  pub close_keeps :
      (t : e.WriteTransaction) (n : TableName) (s : e.WriteTable) (m : TableName)
      → WriteExists t m
      → WriteExists (e.close_table t n s) m
  pub commit_returns :
      (d : e.Database) (t : e.WriteTransaction)
      → (d' : e.Database) × (e.commit d t ≡ ok d')
        × ((n : TableName) → WriteExists t n → Exists d' n)
  pub get_returns : (s : e.ReadTable) (k : Bytes) → (v : Option Bytes) × (e.get s k ≡ ok v)
  pub range_returns :
      (s : e.ReadTable) (r : Range Bytes)
      → is_range r ≡ true
      → (entries : List (Bytes × Bytes)) × (e.range s r ≡ ok (all_ok entries))
  pub get_staged_returns :
      (s : e.WriteTable) (k : Bytes) → (v : Option Bytes) × (e.get_staged s k ≡ ok v)
  pub insert_returns :
      (s : e.WriteTable) (k v : Bytes) → (s' : e.WriteTable) × (e.insert s k v ≡ ok s')
  pub remove_returns : (s : e.WriteTable) (k : Bytes) → (s' : e.WriteTable) × (e.remove s k ≡ ok s')

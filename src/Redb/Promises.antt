-- ===== src/Redb/Promises.antt =====
-- What the redb crate promises, as hypotheses of backend/redb.rs.
use collette.Prelude.{◌≡◌, Option, none, some, List}
use collette.Bytes.{Bytes}
use collette.Outcome.{ok}
use collette.Range.{Range}
use collette.Store.{Content, put, left_to_right}
use collette.Store.Listing.{Lists, all_ok}
use collette.Redb.{Engine, TableName}

-- The promises of the crate, by what tables hold: transactions begin on the committed tables, an
-- open table holds the table of its name, the drop of a table puts it into its transaction, a
-- commit publishes the tables of the one transaction that can write, and a range yields the
-- entries in ascending order. Each clause speaks of a call that succeeds.
pub record EngineContract (e : Engine) : Type 0 where
  pub tables : e.Database → TableName → Content
  pub seen : e.ReadTransaction → TableName → Content
  pub staged : e.WriteTransaction → TableName → Content
  pub readable : e.ReadTable → Content
  pub writable : e.WriteTable → Content
  pub begin_read_lem :
      (d : e.Database) {t : e.ReadTransaction} → e.begin_read d ≡ ok t → seen t ≡ tables d
  pub begin_write_lem :
      (d : e.Database) {t : e.WriteTransaction} → e.begin_write d ≡ ok t → staged t ≡ tables d
  pub open_read_lem :
      (t : e.ReadTransaction) (n : TableName) {s : e.ReadTable}
      → e.open_read_table t n ≡ ok s
      → readable s ≡ seen t n
  pub open_write_lem :
      (t : e.WriteTransaction) (n : TableName) {s : e.WriteTable}
      → e.open_write_table t n ≡ ok s
      → writable s ≡ staged t n
  pub staged-close :
      (t : e.WriteTransaction) (n : TableName) (s : e.WriteTable)
      → staged (e.close_table t n s) ≡ put (staged t) n (writable s)
  pub commit_lem :
      (d : e.Database) (t : e.WriteTransaction) {d' : e.Database}
      → e.commit d t ≡ ok d'
      → tables d' ≡ staged t
  pub get_lem :
      (s : e.ReadTable) (k : Bytes) {v : Option Bytes} → e.get s k ≡ ok v → v ≡ readable s k
  pub get_staged_lem :
      (s : e.WriteTable) (k : Bytes) {v : Option Bytes} → e.get_staged s k ≡ ok v → v ≡ writable s k
  pub insert_lem :
      (s : e.WriteTable) (k v : Bytes) {s' : e.WriteTable}
      → e.insert s k v ≡ ok s'
      → writable s' ≡ put (writable s) k (some v)
  pub remove_lem :
      (s : e.WriteTable) (k : Bytes) {s' : e.WriteTable}
      → e.remove s k ≡ ok s'
      → writable s' ≡ put (writable s) k none
  pub range_staged_lem :
      (s : e.WriteTable) (r : Range Bytes) {entries : List (Bytes × Bytes)}
      → e.range_staged s r ≡ ok (all_ok entries)
      → Lists (writable s) r left_to_right entries
  pub range_lem :
      (s : e.ReadTable) (r : Range Bytes) {entries : List (Bytes × Bytes)}
      → e.range s r ≡ ok (all_ok entries)
      → Lists (readable s) r left_to_right entries

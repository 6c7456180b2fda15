-- ===== src/Examples/Engine.antt =====
-- An engine that keeps its promises: tables in memory, each with the proof that it is sorted.
use collette.Prelude.{◌≡◌, refl, sym, ap, ◌∙◌, fun_ext, Option, none, some, [], arith}
use collette.Bytes.{Bytes}
use collette.Outcome.{Outcome, ok, err, ok_injective}
use collette.Map
use collette.Map.{Map}
use collette.Map.Laws.{IsSorted, insert-IsSorted, remove-IsSorted, get-insert}
use collette.Store.{Content, BackendError, left_to_right, put}
use collette.Memory
use collette.Memory.Contract.{content, content-insert, content-remove}
use collette.Memory.Listing.{memory_listing}
use collette.Redb.{Engine, TableName}
use collette.Redb.Promises.{EngineContract}

abbrev pub Table : Type 0
Table = (m : Map Bytes) × IsSorted m

abbrev pub Tables : Type 0
Tables = Map Table

abbrev pub found_table : Option Table → Outcome BackendError Table
found_table none = err "the table does not exist"
found_table (some t) = ok t

abbrev pub new_table : Option Table → Table
new_table none = ([], tt)
new_table (some t) = t

abbrev pub engine : Engine
engine = record {
  Database = Tables;
  ReadTransaction = Tables;
  WriteTransaction = Tables;
  ReadTable = Table;
  WriteTable = Table;
  create = λ path. ok [];
  open_file = λ path. ok [];
  begin_read = λ d. ok d;
  begin_write = λ d. ok d;
  open_read_table = λ t n. found_table (Map.get t n);
  open_write_table = λ t n. ok (new_table (Map.get t n));
  close_table = λ t n s. Map.insert t n s;
  commit = λ d t. ok t;
  get = λ s k. Memory.get s.0 k;
  range = λ s r. Memory.scan s.0 r left_to_right;
  get_staged = λ s k. Memory.get s.0 k;
  range_staged = λ s r. Memory.scan s.0 r left_to_right;
  insert = λ s k v. ok (Map.insert s.0 k v, insert-IsSorted s.0 k v s.1);
  remove = λ s k. ok (Map.remove s.0 k, remove-IsSorted s.0 k s.1);
}

abbrev pub table_content : Option Table → Content
table_content none k = none
table_content (some t) k = content t.0 k

abbrev pub tables_content : Tables → TableName → Content
tables_content t n = table_content (Map.get t n)

found_content :
    (o : Option Table) {s : Table} → found_table o ≡ ok s → content s.0 ≡ table_content o
found_content none e = absurd (cc)
found_content (some t) e = ap (λ (x : Table). content x.0) (sym (ok_injective e))

new_content : (o : Option Table) → content (new_table o).0 ≡ table_content o
unfolding Map.get
new_content none = refl
new_content (some t) = refl

closed_content :
    (t : Tables) (n : TableName) (s : Table)
    → tables_content (Map.insert t n s) ≡ put (tables_content t) n (content s.0)
closed_content t n s = fun_ext λ m. fun_ext λ k. ground (arith, get-insert t n m s)

pub engine-contract : EngineContract engine
unfolding Memory.get memory_listing
engine-contract = record {
  tables = tables_content;
  seen = tables_content;
  staged = tables_content;
  readable = λ s. content s.0;
  writable = λ s. content s.0;
  begin_read_lem = λ d e. ap tables_content (sym (ok_injective e));
  begin_write_lem = λ d e. ap tables_content (sym (ok_injective e));
  open_read_lem = λ t n e. found_content (Map.get t n) e;
  open_write_lem =
      λ t n e. ap (λ (x : Table). content x.0) (sym (ok_injective e)) ∙ new_content (Map.get t n);
  staged-close = λ t n s. closed_content t n s;
  commit_lem = λ d t e. ap tables_content (sym (ok_injective e));
  get_lem = λ s k e. sym (ok_injective e);
  get_staged_lem = λ s k e. sym (ok_injective e);
  insert_lem =
      λ s k v e. ap (λ (x : Table). content x.0) (sym (ok_injective e)) ∙ content-insert s.0 k v;
  remove_lem =
      λ s k e. ap (λ (x : Table). content x.0) (sym (ok_injective e)) ∙ content-remove s.0 k;
  range_staged_lem = λ s r e. memory_listing.scan_lem s.0 r left_to_right s.1 e;
  range_lem = λ s r e. memory_listing.scan_lem s.0 r left_to_right s.1 e;
}

pub engine-tables : engine-contract.tables ≡ tables_content
unfolding engine-contract
engine-tables = refl

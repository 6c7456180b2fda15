-- ===== src/Examples/Reopened.antt =====
-- A database file over a concrete engine whose calls return, with two records, that is opened
-- again.
use collette.Prelude.{
  ℕ, ◌≡◌, refl, sym, Bool-cases, inl, inr, ◌∙◌, some, List, [], ◌∷◌, arith, compare, map,
}
use mathlib.Core.Path.{subst}
use collette.Bytes.{Bytes, ◌=ᵇ◌, compare_bytes}
use collette.Outcome.{ok}
use collette.Range.{contains}
use collette.Bounds.{exact_encoder}
use collette.Map
use collette.Map.Laws.{get-insert, IsSorted}
use collette.Memory.Contract.{memory_law}
use collette.Store.{Contents, left_to_right, right_to_left}
use collette.Store.Put.{=ᵇ_refl}
use collette.Memory
use collette.Memory.Available.{scan_returns}
use collette.Redb.{RedbMultiStore, redb, table_name, push_hex, hex_digit}
use collette.Redb.Contract.{stored, stores_of}
use collette.Redb.Available.{redb-Available}
use collette.Redb.Returns.{EngineReturns}
use collette.Store.Available.{Available}
use collette.Collection.{main_store, build}
use collette.Collection.Consistent.{IsConsistent}
use collette.Collection.Session.{session}
use collette.Collection.Session.Specified.{spec_session}
use collette.Collection.Persistent.{reopened_session-scan-ListsRecords}
use collette.Scan.{Scan, directed, range}
use collette.Scan.Open
use collette.Scan.Open.{Entry, ScanExecutor, CollectionIterator, next_stored, open_collection, iter}
use collette.Scan.Records.{Drains, ListsRecords}
use collette.Scan.Records.Primary.{StoredIn, place}
use collette.Examples.Collections.{groups, grouped, byte_key}
use collette.Examples.Consistency.{
  two-Consistent, IsByteKey, byte_key-IsLawful, distinct, tests, codec,
}
use collette.Examples.InMemory.{to_bytes_returns, two_bytes_returns}
use collette.Examples.Records.{numbers, numbers-is_range, main_entries}
use collette.Examples.Sessions.{calls, calls-valid}
use collette.Examples.Engine.{
  engine, engine-contract, engine-tables, tables_content, Table, Tables, new_table,
}

abbrev Exists : Tables → Bytes → Type 0
Exists t n = (s : Table) × (Map.get t n ≡ some s)

created : (t : Tables) (n : Bytes) (s : Table) → Exists (Map.insert t n s) n
created t n s = (s, get-insert t n n s ∙ rw =ᵇ_refl)

kept : (t : Tables) (n : Bytes) (s : Table) (m : Bytes) → Exists t m → Exists (Map.insert t n s) m
kept t n s m (x, e) = elim (Bool-cases (n =ᵇ m)) as (λ _. Exists (Map.insert t n s) m) [
  | inl h ↦ (s, get-insert t n m s ∙ rw h)
  | inr h ↦ (x, get-insert t n m s ∙ rw h e)
]

engine-returns : EngineReturns engine
unfolding Memory.get
engine-returns = record {
  Exists = Exists;
  ReadExists = Exists;
  WriteExists = Exists;
  begin_read_returns = λ d. (d, refl, λ n h. h);
  begin_write_returns = λ d. (d, refl, λ n h. h);
  open_read_returns = λ t n (s, e). (s, rw e refl);
  open_write_returns = λ t n. (new_table (Map.get t n), refl);
  close_creates = created;
  close_keeps = kept;
  commit_returns = λ d t. (t, refl, λ n h. h);
  get_returns = λ s k. (_, refl);
  get_staged_returns = λ s k. (_, refl);
  range_returns = λ s r h. scan_returns s.0 r left_to_right h;
  insert_returns = λ s k v. (_, refl);
  remove_returns = λ s k. (_, refl);
}

abbrev group_entries : Map.Map Bytes
group_entries = (5 ∷ 1 ∷ [], 1 ∷ []) ∷ (5 ∷ 2 ∷ [], 2 ∷ []) ∷ []

main_entries-IsSorted : IsSorted main_entries
unfolding compare_bytes
main_entries-IsSorted = ((refl, tt), (tt, tt))

group_entries-IsSorted : IsSorted group_entries
unfolding compare_bytes
group_entries-IsSorted = ((refl, tt), (tt, tt))

abbrev main_table : Table
main_table = (main_entries, main_entries-IsSorted)

abbrev group_table : Table
group_table = (group_entries, group_entries-IsSorted)

-- The file, of which no store is prepared.
abbrev file : RedbMultiStore engine
file = record {
  db =
      (table_name groups.name main_store, main_table)
      ∷ (table_name groups.name (0x67 ∷ []), group_table)
      ∷ [];
  tables = [];
}

abbrev held : Contents
held = stored engine engine-contract file groups.name

content-Consistent : IsConsistent groups IsByteKey (stores_of (tables_content file.db) groups.name)
unfolding table_name push_hex hex_digit Map.get compare_bytes memory_law
content-Consistent = record { keyed = two-Consistent.keyed; indexed = two-Consistent.indexed }

file-Consistent : IsConsistent groups IsByteKey held
file-Consistent =
    subst (λ f. IsConsistent groups IsByteKey (stores_of (f file.db) groups.name))
      (sym engine-tables) content-Consistent

reopened_session-scan-ListsRecords_example :
    (built : RedbMultiStore engine) × (left : RedbMultiStore engine) × (build
        (redb engine)
        groups
        file
      ≡ ok built)
    × (session (redb engine) groups built calls ≡ ok left)
    × (x : Scan (ScanExecutor (redb engine) grouped) ℕ) × (it : CollectionIterator
        (redb engine)
        grouped)
    × (found : List (Entry (ℕ × ℕ))) × (Open.scan (redb engine) groups left ≡ ok x)
    × (iter
          (redb engine)
          grouped
          byte_key
          (open_collection (redb engine) grouped)
          (directed right_to_left (range (exact_encoder byte_key) numbers x))
        ≡ ok it)
    × Drains (next_stored (redb engine) grouped) it (map ok found)
    × ListsRecords
        (StoredIn groups (spec_session groups held calls main_store))
        (place groups)
        (λ x. contains compare numbers x.0)
        right_to_left
        found
reopened_session-scan-ListsRecords_example =
    reopened_session-scan-ListsRecords engine engine-contract engine-returns groups
      byte_key-IsLawful distinct tests codec to_bytes_returns two_bytes_returns file file-Consistent
      calls calls-valid numbers (omega arith) (omega arith) numbers-is_range byte_key right_to_left

redb-Available_example : Available (redb engine)
redb-Available_example = redb-Available engine engine-returns

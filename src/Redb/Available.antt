-- ===== src/Redb/Available.antt =====
-- backend/redb.rs: what the calls of the persistent backend return, over a crate whose calls return.
use collette.Prelude.{ap, ◌≡◌, refl, ◌∙◌, true, some, List, [], ◌∷◌, All, arith}
use mathlib.Core.Path.{subst}
use collette.Bytes.{Bytes}
use collette.Outcome.{ok}
use collette.Store.{Name, Direction}
use collette.Store.Listing.{all_ok}
use collette.Store.Put.{=ᵇ_refl}
use collette.Store.Available.{Available}
use collette.Redb.{
  Engine, TableName, PreparedTable, PreparedTables, get_table, table_name, prepared_table_name,
  prepared_names, insert_tables, retain_others, create_tables, RedbMultiStore, RedbReadHandle,
  RedbWriteHandle, redb, prepare, read, scan, write, open_read, open_write, close, commit,
}
use collette.Range.{Range}
use collette.Map.{is_range}
use collette.Redb.Listing.{yielded, scan_bounds-id}
use collette.Redb.Returns.{EngineReturns}
use collette.Redb.Prepared.{is_listed, get_table-prepare}

module _ (e : Engine) (returns : EngineReturns e) where
  abbrev Known : PreparedTables → Name → Name → Type 0
  Known tables n m = get_table tables (n, m) ≡ some (table_name n m)

  -- The store is prepared, and its table exists.
  abbrev pub HasTable : RedbMultiStore e → Name → Name → Type 0
  HasTable s n m = Known s.tables n m × returns.Exists s.db (table_name n m)

  abbrev ReadHas : RedbReadHandle e → Name → Type 0
  ReadHas h m = Known h.tables h.namespace m × returns.ReadExists h.read (table_name h.namespace m)

  abbrev WriteHas : RedbWriteHandle e → Name → Type 0
  WriteHas w m =
      Known w.tables w.namespace m × returns.WriteExists w.write (table_name w.namespace m)

  abbrev BegunFor : RedbMultiStore e → Name → RedbWriteHandle e → Type 0
  BegunFor s n w = (w.tables ≡ s.tables) × (w.namespace ≡ n)

  -- The loop of `prepare` returns, and the tables that it has opened exist.
  create_tables_returns :
      (t : e.WriteTransaction) (prepared : List PreparedTable)
      → (t' : e.WriteTransaction) × (create_tables e t prepared ≡ ok t')
        × ((m : TableName) → returns.WriteExists t m → returns.WriteExists t' m)
        × All (λ entry. returns.WriteExists t' entry.name) prepared
  unfolding create_tables
  create_tables_returns t [] = (t, refl, λ m h. h, tt)
  create_tables_returns t (entry ∷ prepared) =
      let (s, p) = returns.open_write_returns t entry.name in
      let (t', q, kept, all) = create_tables_returns (e.close_table t entry.name s) prepared in
      (
        t',
        rw p q,
        λ m h. kept m (returns.close_keeps t entry.name s m h),
        (kept entry.name (returns.close_creates t entry.name s), all),
      )

  All-names :
      (n : Name) (t : e.WriteTransaction) (names : List Name) {P : Name → Type 0}
      → ((k : Name) → is_listed k names ≡ true → returns.WriteExists t (table_name n k) → P k)
      → All (λ entry. returns.WriteExists t entry.name) (prepared_names n names)
      → All P names
  unfolding prepared_names
  All-names n t [] f h = tt
  All-names n t (name ∷ names) f h =
      (f name (rw =ᵇ_refl refl) h.0, All-names n t names (λ k l. f k (ground arith)) h.1)

  prepare_returns :
      (s : RedbMultiStore e) (n : Name) (names : List Name)
      → (s' : RedbMultiStore e) × (prepare e s n names ≡ ok s') × All (HasTable s' n) names
  unfolding prepare
  prepare_returns s n names =
      let (t, p, _) = returns.begin_write_returns s.db in
      let (t', q, _, all) = create_tables_returns t (prepared_names n names) in
      let (d, r, exist) = returns.commit_returns s.db t' in
      let s' : RedbMultiStore e = record {
        db = d;
        tables = insert_tables (prepared_names n names) (retain_others n s.tables);
      } in
      let done : prepare e s n names ≡ ok s' = rw (prepare, p, q, r) refl in
      (
        s',
        done,
        All-names n t' names
            (λ k l h. (
              get_table-prepare e s n names done n k ∙ rw (=ᵇ_refl, l) refl,
              exist (table_name n k) h,
            ))
            all,
      )

  opened_read :
      (s : RedbMultiStore e) (n m : Name)
      → HasTable s n m
      → (h : RedbReadHandle e) × (read e s n ≡ ok h) × ((k : Name) → HasTable s n k → ReadHas h k)
  unfolding read
  opened_read s n m has =
      let (t, p, exist) = returns.begin_read_returns s.db in
      (
        record { namespace = n; tables = s.tables; read = t },
        rw p refl,
        λ k h. (h.0, exist (table_name n k) h.1),
      )

  opened_write :
      (s : RedbMultiStore e) (n m : Name)
      → HasTable s n m
      → (w : RedbWriteHandle e) × (write e s n ≡ ok w)
        × BegunFor s n w
        × ((k : Name) → HasTable s n k → WriteHas w k)
  unfolding write
  opened_write s n m has =
      let (t, p, exist) = returns.begin_write_returns s.db in
      (
        record { namespace = n; tables = s.tables; write = t },
        rw p refl,
        (refl, refl),
        λ k h. (h.0, exist (table_name n k) h.1),
      )

  open_read_returns :
      (h : RedbReadHandle e) (m : Name) → ReadHas h m → (t : e.ReadTable) × (open_read e h m ≡ ok t)
  unfolding open_read prepared_table_name
  open_read_returns h m (known, exists) =
      let (t, p) = returns.open_read_returns h.read (table_name h.namespace m) exists in
      (t, rw known p)

  open_write_returns :
      (w : RedbWriteHandle e) (m : Name)
      → WriteHas w m
      → (t : e.WriteTable) × (open_write e w m ≡ ok t)
  unfolding open_write prepared_table_name
  open_write_returns w m (known, exists) =
      let (t, p) = returns.open_write_returns w.write (table_name w.namespace m) in (t, rw known p)

  scan_returns :
      (t : e.ReadTable) (r : Range Bytes) (d : Direction)
      → is_range r ≡ true
      → (found : List (Bytes × Bytes)) × (scan e t r d ≡ ok (all_ok found))
  unfolding scan
  scan_returns t r d h =
      let (entries, p) = returns.range_returns t r h in
      let (found, q) = yielded entries d in (found, rw (scan_bounds-id r, p) (ap ok q))

  commit_returns :
      (s : RedbMultiStore e) (n : Name) (w : RedbWriteHandle e)
      → BegunFor s n w
      → (s' : RedbMultiStore e) × (commit e s w ≡ ok s')
        × ((k : Name) → WriteHas w k → HasTable s' n k)
  unfolding commit
  commit_returns s n w (same, scoped) =
      let (d, p, exist) = returns.commit_returns s.db w.write in
      (
        record s { db = d },
        rw p refl,
        λ k (known, exists).
            subst (λ i. Known s.tables i k × returns.Exists d (table_name i k)) scoped
              (
                subst (λ t. Known t w.namespace k) same known,
                exist (table_name w.namespace k) exists,
              ),
      )

  -- If the calls of the redb crate return, where a table can be read once a transaction has
  -- committed in which it was opened, then so do those of the persistent backend: after a prepare,
  -- the listed stores can be opened for reading and for writing, read, written, scanned and
  -- committed, and stay there through commits.
  pub redb-Available : Available (redb e)
  unfolding close
  redb-Available = record {
    Has = HasTable;
    ReadHas = ReadHas;
    WriteHas = WriteHas;
    BegunFor = BegunFor;
    prepare_returns = prepare_returns;
    read_returns = opened_read;
    open_read_returns = open_read_returns;
    get_returns = returns.get_returns;
    scan_returns = scan_returns;
    write_returns = opened_write;
    open_write_returns = open_write_returns;
    get_staged_returns = returns.get_staged_returns;
    set_returns = returns.insert_returns;
    remove_returns = returns.remove_returns;
    close_keeps = λ w n t k (known, exists). (
      known,
      returns.close_keeps w.write (table_name w.namespace n) t (table_name w.namespace k) exists,
    );
    close_begun = λ s n m w t h. h;
    commit_returns = commit_returns;
  }

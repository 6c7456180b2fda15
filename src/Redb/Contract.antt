-- ===== src/Redb/Contract.antt =====
-- backend/redb.rs: the persistent backend and the contract of a backend, over a crate that keeps its
-- promises.
use collette.Prelude.{
  ◌&&◌, arith, ◌≡◌, ◌≢◌, refl, sym, ap, ◌∙◌, fun_ext, Option, none, some, [], ◌∷◌, inl, inr,
  Bool-cases,
}
use mathlib.Core.Path.{subst}
use collette.Bytes.{◌=ᵇ◌}
use collette.Outcome.{Outcome, ok, unwrap, ◌>>=◌, >>=-eq_ok, ok_injective}
use collette.Store.{Name, BackendError, Content, Contents, IsLawful, put}
use collette.Store.Put.{put_ne}
use collette.Bytes.Order.{=ᵇ_iff}
use collette.Redb.{
  Engine, TableName, PreparedTables, get_table, prepared_table_name, table_name, RedbMultiStore,
  RedbReadHandle, RedbWriteHandle, redb, read, write, open_read, open_write, close, commit,
}
use collette.Redb.Promises.{EngineContract}
use collette.Redb.Names.{table_name-eq_in_namespace, table_name-ne}

-- A store that opens has been prepared.
pub prepared :
    (o : Option TableName) {A : Type 0} (f : TableName → Outcome BackendError A) {a : A}
    → (unwrap o >>= f) ≡ ok a
    → (t : TableName) × (o ≡ some t) × (f t ≡ ok a)
prepared none f e = absurd (cc)
prepared (some t) f e = (t, refl, e)

get_table-name :
    (tables : PreparedTables) (n s : Name) {t : TableName}
    → get_table tables (n, s) ≡ some t
    → t ≡ table_name n s
unfolding get_table
get_table-name [] n s e = absurd (cc)
get_table-name (entry ∷ tables) n s {t} e =
    elim (Bool-cases ((entry.key.0 =ᵇ n) && (entry.key.1 =ᵇ s))) [
      | inl q ↦
          let e' : some entry.name ≡ some t = ground arith in
          let p = (=ᵇ_iff entry.key.0 n).0 (ground arith) in
          let r = (=ᵇ_iff entry.key.1 s).0 (ground arith) in cc entry.named
      | inr q ↦ get_table-name tables n s (ground arith)
    ]

-- The tables of the stores of a namespace.
abbrev pub stores_of : (TableName → Content) → Name → Contents
stores_of f n store = f (table_name n store)

module _ (e : Engine) (law : EngineContract e) where
  abbrev pub stored : RedbMultiStore e → Name → Contents
  stored s n m = law.tables s.db (table_name n m)

  abbrev pub seen_stores : RedbReadHandle e → Contents
  seen_stores h m = law.seen h.read (table_name h.namespace m)

  abbrev pub staged_stores : RedbWriteHandle e → Contents
  staged_stores w m = law.staged w.write (table_name w.namespace m)

  -- The handle is for the namespace, and has staged nothing in the others.
  pub record BegunOn (s : RedbMultiStore e) (n : Name) (w : RedbWriteHandle e) : Type 0 where
    pub scoped : w.namespace ≡ n
    pub elsewhere :
        (m store : Name)
        → n ≢ m
        → law.staged w.write (table_name m store) ≡ law.tables s.db (table_name m store)

  pub read_stores :
      (s : RedbMultiStore e) (n : Name) {h : RedbReadHandle e}
      → read e s n ≡ ok h
      → seen_stores h ≡ stored s n
  unfolding read
  read_stores s n q =
      let (t, p, r) = >>=-eq_ok (e.begin_read s.db) _ q in
      subst (λ (x : RedbReadHandle e). seen_stores x ≡ stored s n) (ok_injective r)
        (ap (λ f. stores_of f n) (law.begin_read_lem s.db p))

  pub opened_read :
      (h : RedbReadHandle e) (m : Name) {t : e.ReadTable}
      → open_read e h m ≡ ok t
      → law.readable t ≡ seen_stores h m
  unfolding open_read prepared_table_name
  opened_read h m q =
      let (n, p, r) = prepared (get_table h.tables (h.namespace, m)) (e.open_read_table h.read) q in
      law.open_read_lem h.read n r ∙ ap (law.seen h.read) (get_table-name h.tables h.namespace m p)

  pub opened_write :
      (w : RedbWriteHandle e) (m : Name) {t : e.WriteTable}
      → open_write e w m ≡ ok t
      → law.writable t ≡ staged_stores w m
  unfolding open_write prepared_table_name
  opened_write w m q =
      let (n, p, r) =
        prepared (get_table w.tables (w.namespace, m)) (e.open_write_table w.write) q in
      law.open_write_lem w.write n r
      ∙ ap (law.staged w.write) (get_table-name w.tables w.namespace m p)

  pub written :
      (s : RedbMultiStore e) (n : Name) {w : RedbWriteHandle e}
      → write e s n ≡ ok w
      → (staged_stores w ≡ stored s n) × BegunOn s n w
  unfolding write
  written s n q =
      let (t, p, r) = >>=-eq_ok (e.begin_write s.db) _ q in
      let same = law.begin_write_lem s.db p in
      subst (λ (x : RedbWriteHandle e). (staged_stores x ≡ stored s n) × BegunOn s n x)
        (ok_injective r)
        (
          ap (λ f. stores_of f n) same,
          record {
            scoped = refl;
            elsewhere = λ m store d. ap (λ (f : TableName → Content). f (table_name m store)) same;
          },
        )

  pub closed :
      (w : RedbWriteHandle e) (m : Name) (t : e.WriteTable)
      → staged_stores (close e w m t) ≡ put (staged_stores w) m (law.writable t)
  unfolding close
  closed w m t = fun_ext λ k.
      ap (λ (f : TableName → Content). f (table_name w.namespace k))
        (law.staged-close w.write (table_name w.namespace m) t)
      ∙ rw (table_name-eq_in_namespace w.namespace m k) refl

  pub close-BegunOn :
      (s : RedbMultiStore e) (n m : Name) (w : RedbWriteHandle e) (t : e.WriteTable)
      → BegunOn s n w
      → BegunOn s n (close e w m t)
  unfolding close
  close-BegunOn s n m w t h = record {
    scoped = h.scoped;
    elsewhere = λ k store d.
        ap (λ (f : TableName → Content). f (table_name k store))
          (law.staged-close w.write (table_name w.namespace m) t)
        ∙ put_ne (law.staged w.write) (table_name w.namespace m) (law.writable t)
            (table_name k store) (table_name-ne w.namespace k m store (λ q. d (sym h.scoped ∙ q)))
        ∙ h.elsewhere k store d;
  }

  committed_at :
      (s : RedbMultiStore e) (n : Name) (w : RedbWriteHandle e) (m : Name)
      → BegunOn s n w
      → stores_of (law.staged w.write) m ≡ put (stored s) n (staged_stores w) m
  committed_at s n w m h = elim (Bool-cases (n =ᵇ m)) [
    | inl q ↦ rw q (ap (stores_of (law.staged w.write)) (sym ((=ᵇ_iff n m).0 q) ∙ sym h.scoped))
    | inr q ↦ rw q (fun_ext λ store. h.elsewhere m store (λ r. let t = (=ᵇ_iff n m).1 r in cc))
  ]

  pub committed :
      (s : RedbMultiStore e) (n : Name) (w : RedbWriteHandle e) {s' : RedbMultiStore e}
      → BegunOn s n w
      → commit e s w ≡ ok s'
      → stored s' ≡ put (stored s) n (staged_stores w)
  unfolding commit
  committed s n w h q =
      let (d, p, r) = >>=-eq_ok (e.commit s.db w.write) _ q in
      subst (λ (x : RedbMultiStore e). stored x ≡ put (stored s) n (staged_stores w))
        (ok_injective r)
        (fun_ext
          λ m. ap (λ f. stores_of f m) (law.commit_lem s.db w.write p) ∙ committed_at s n w m h)

  unfoldable pub redb_law : IsLawful (redb e)
  redb_law = record {
    stored = stored;
    seen = seen_stores;
    readable = law.readable;
    staged = staged_stores;
    writable = law.writable;
    Begun = BegunOn;
    read_lem = λ s n q. read_stores s n q;
    open_read_lem = λ h m q. opened_read h m q;
    get_lem = λ t k q. law.get_lem t k q;
    write_lem = λ s n q. written s n q;
    open_write_lem = λ w m q. opened_write w m q;
    get_staged_lem = λ t k q. law.get_staged_lem t k q;
    set_lem = λ t k v q. law.insert_lem t k v q;
    remove_lem = λ t k q. law.remove_lem t k q;
    staged-close = λ w m t. closed w m t;
    begun-close = λ s n m w t h. close-BegunOn s n m w t h;
    commit_lem = λ s n w h q. committed s n w h q;
  }

  -- If the redb crate keeps its promises, the persistent backend keeps the contract of a backend:
  -- reads see the committed stores, writes see these and what was written, and a commit publishes
  -- what was staged for its namespace and changes no other.
  pub redb-IsLawful : IsLawful (redb e)
  redb-IsLawful = redb_law

-- ===== src/Scan/Records/Secondary.antt =====
-- Scans of an index, from the database to the records that are drained.
use collette.Prelude.{
  ◌≡◌, ◌≢◌, refl, sym, ap, ◌∙◌, Bool, Option, some, List, [], ◌∷◌, ◌++◌, map, String, Ordering,
}
use collette.Prelude.Listings.{All-Mem}
use mathlib.Core.List.{Memᴰ}
use mathlib.Core.Path.{subst}
use collette.Bytes.{Bytes, AreBytes, compare_bytes}
use collette.Outcome.{Error, ok, call-eq_ok, ok_injective}
use collette.Range.{Range, contains}
use collette.Key
use collette.Key.{Key}
use collette.Index.{Index, AppendKey, unique, multi, entry_key}
use collette.Bounds.{encode_range}
use collette.Bounds.Exact.{
  AtBound, StartFits, contains-encode_range_exact, contains-encode_range_prefix,
}
use collette.Store.{MultiStore, Direction, Content, IsLawful}
use collette.Store.Listing.{ScansInOrder, all_ok}
use collette.Collection.{Collection, main_store}
use collette.Collection.Consistent.{Holds, IndexOk, IsConsistent}
use collette.Scan.{Scan, directed, compile, range}
use collette.Scan.Open.{
  Entry, IndexIterator, ScanExecutor, Results, index_entry, require_record, next_indexed,
  open_index, iter, index_scan,
}
use collette.Scan.Records.{Drains, stop, step, ListsRecords, Presents, Lists-records, entry_at}
use collette.Scan.Records.Primary.{StoredIn, Holds-placed, opened-Lists}

-- The index of a record whose range of index keys is encoded to the range of the entries.
abbrev pub BoundsFit :
    {R PK : Type 0} (i : Index R PK)
    → (i.IndexKey → PK → Type 0)
    → (i.IndexKey → i.IndexKey → Ordering)
    → Range i.IndexKey
    → Type 0
BoundsFit {PK} i IsValid cmp r =
    (k : i.IndexKey) (pk : PK)
    → IsValid k pk
    → contains compare_bytes (encode_range i.kind.bounds r)
        (i.store_ops.encode (i.kind.store_key k pk))
      ≡ contains cmp r k

-- Where the entry of a record stands in the index.
abbrev pub index_place : {R PK : Type 0} → Collection R PK → Index R PK → R → Bytes
index_place c i x = entry_key i x (c.item.key x)

module _ {R PK : Type 0} (b : MultiStore) (law : IsLawful b) (lists : ScansInOrder b law)
    (c : Collection R PK) (db : b.Db) (missing : Bytes → String)
    (reads : (s : b.ReadStore) (k : Bytes) → (v : Option Bytes) × (b.get s k ≡ ok v)) where
  module _ (i : Index R PK) where
    pub drain_indexed :
        (inner : Results b c.item) (store : b.ReadStore)
        → Drains
            (next_indexed b c.item missing)
            (record { inner = inner; primary_store = store })
            (map (index_entry b c.item missing store) inner)
    unfolding next_indexed
    drain_indexed [] store = stop _ refl
    drain_indexed (res ∷ rest) store = step _ _ _ _ refl (drain_indexed rest store)

    module _ {ValidKey : PK → Type 0} (consistent : IsConsistent c ValidKey (law.stored db c.name))
        (index_ok : IndexOk c.item i
          (law.stored db c.name main_store)
          (law.stored db c.name i.name))
        (store : b.ReadStore) (opened : law.readable store ≡ law.stored db c.name main_store) where
      -- The entry of a record is resolved to it.
      resolved :
          (k kb : Bytes) (x : R)
          → Holds c.item (law.stored db c.name main_store) kb x
          → index_entry b c.item missing store (ok (k, kb)) ≡ ok (entry_at x k)
      unfolding index_entry require_record
      resolved k kb x h =
          let (v, e) = reads store kb in
          let q : v ≡ some h.bytes =
            law.get_lem store kb e ∙ ap (λ (m : Content). m kb) opened ∙ h.there in
          rw (e, q, h.decodes) refl

      index-Presents :
          Presents
            (StoredIn c (law.stored db c.name main_store))
            (index_place c i)
            (law.stored db c.name i.name)
            (index_entry b c.item missing store)
      index-Presents = record {
        decodes = λ k kb e.
            let (x, h, q) = index_ok.sound k kb e in
            let m = law.stored db c.name main_store in
            let (p, _) = Holds-placed c ValidKey m consistent.keyed kb x h in
            (x, resolved k kb x h, q, subst (λ y. Holds c.item m y x) (sym p) h);
        present = λ x s.
            let kb = c.pk_ops.encode (c.item.key x) in
            (kb, index_ok.complete kb x s, resolved (index_place c i x) kb x s);
      }

  module _ {ValidKey : PK → Type 0} (okdb : lists.OkDb db)
      (consistent : IsConsistent c ValidKey (law.stored db c.name)) (i : Index R PK)
      (registered : Memᴰ i c.indexes) (cmp : i.IndexKey → i.IndexKey → Ordering)
      (IsValid : i.IndexKey → PK → Type 0)
      (valid : (x : R)
        → StoredIn c (law.stored db c.name main_store) x
        → IsValid (i.key x) (c.item.key x))
      (r : Range i.IndexKey) (fits : BoundsFit i IsValid cmp r) (d : Direction) where
    abbrev in_index_range : R → Bool
    in_index_range x = contains cmp r (i.key x)

    -- What is drained from the iterator.
    abbrev Drained : IndexIterator b c.item → Type 0
    Drained it =
        (found : List (Entry R)) × Drains (next_indexed b c.item missing) it (map ok found)
        × ListsRecords (StoredIn c (law.stored db c.name main_store)) (index_place c i)
            in_index_range d found

    opened_index :
        (h : b.ReadHandle) {it : IndexIterator b c.item} (entries : List (Bytes × Bytes))
        → b.read db c.name ≡ ok h
        → open_index b c.item i
            (record { collection_name = main_store; read_handle = h })
            (encode_range i.kind.bounds r)
            d
          ≡ ok it
        → it.inner ≡ all_ok entries
        → Drained it
    unfolding open_index
    opened_index h {it} entries q e f =
        let br = encode_range i.kind.bounds r in
        let ct = law.stored db c.name in
        let sees = law.read_lem db c.name q in
        let (store, e1, rest) = call-eq_ok Error.backend (b.open_read h i.name) _ e in
        let (inner, e2, rest') = call-eq_ok Error.backend (b.scan store br d) _ rest in
        let (primary, e3, last) = call-eq_ok Error.backend (b.open_read h main_store) _ rest' in
        let it_lem = ok_injective last in
        let same : inner ≡ all_ok entries =
          ap (λ (x : IndexIterator b c.item). x.inner) it_lem ∙ f in
        let listed =
          opened-Lists b law lists c db h i.name br d sees (lists.read_keeps db c.name okdb q) e1
            (e2 ∙ ap ok same) in
        let index_ok =
          All-Mem (λ j. IndexOk c.item j (ct main_store) (ct j.name)) consistent.indexed
            registered in
        let primary_content = law.open_read_lem h main_store e3 ∙ ap (λ x. x main_store) sees in
        let (found, all, l) =
          Lists-records (StoredIn c (ct main_store)) (index_place c i)
            (index-Presents i consistent index_ok primary primary_content) br in_index_range d
            (λ x s. fits (i.key x) (c.item.key x) (valid x s)) listed in
        (
          found,
          subst (λ x. Drains (next_indexed b c.item missing) x (map ok found))
              (ap (λ x. record { inner = x; primary_store = primary }) (sym same) ∙ it_lem)
              (subst (Drains (next_indexed b c.item missing) _) all
                (drain_indexed i (all_ok entries) primary)),
          l,
        )

    -- Over any backend that keeps its contract and lists its stores, where no read of a record
    -- fails: in a consistent collection with valid index keys, if a range of a registered index,
    -- encoded so that it fits the typed range, is scanned and no entry of the backend fails, then
    -- the iterator returns no error, and each stored record whose index key is in the range
    -- exactly once, in the order of the index entries and the direction, with the cursor of its
    -- entry.
    pub index_scan-ListsRecords :
        {P : Type 0} (kp : Key P) {s : Scan (ScanExecutor b c.item) P} {it : IndexIterator b c.item}
        (entries : List (Bytes × Bytes))
        → index_scan b c i db ≡ ok s
        → iter b c.item kp (open_index b c.item i) (directed d (range i.kind.bounds r s)) ≡ ok it
        → it.inner ≡ all_ok entries
        → Drained it
    unfolding index_scan iter compile range
    index_scan-ListsRecords kp {s} {it} entries e f g =
        let (h, q, last) = call-eq_ok Error.backend (b.read db c.name) _ e in
        opened_index h entries q
          (subst
            (λ x.
              iter b c.item kp (open_index b c.item i) (directed d (range i.kind.bounds r x))
              ≡ ok it)
            (sym (ok_injective last)) f)
          g

module _ {IK PK : Type 0} {ik : Key IK} {cmp : IK → IK → Ordering} {IsValid : IK → Type 0}
    (law : Key.IsLawful ik cmp IsValid) (r : Range IK) (valid_start : AtBound IsValid r.0)
    (valid_end : AtBound IsValid r.1) where
  -- The range of a unique index.
  pub unique-fits :
      (k : IK) (pk : PK)
      → IsValid k
      → contains compare_bytes
          (encode_range (unique {PK = PK} ik).bounds r)
          (ik.encode ((unique {PK = PK} ik).store_key k pk))
        ≡ contains cmp r k
  unfolding unique
  unique-fits k pk v = contains-encode_range_exact law r k valid_start valid_end v

  -- The range of an index that appends the primary key.
  pub multi-fits :
      {SK : Type 0} (a : AppendKey IK PK SK) (sk : Key SK) (k : IK) (pk : PK) (pk_bytes : Bytes)
      → StartFits ik r.0
      → sk.encode (a.append k pk) ≡ ik.encode k ++ pk_bytes
      → AreBytes pk_bytes
      → pk_bytes ≢ []
      → IsValid k
      → contains compare_bytes
          (encode_range (multi ik a).bounds r)
          (sk.encode ((multi ik a).store_key k pk))
        ≡ contains cmp r k
  unfolding multi
  multi-fits a sk k pk [] f e bytes nonempty v = absurd (nonempty refl)
  multi-fits a sk k pk (x ∷ rest) f e bytes nonempty v =
      rw e (contains-encode_range_prefix law k x rest v bytes r valid_start valid_end f)

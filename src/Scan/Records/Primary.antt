-- ===== src/Scan/Records/Primary.antt =====
-- Scans of a collection by primary key, from the database to the records that are drained.
use collette.Prelude.{◌≡◌, refl, sym, ap, ◌∙◌, Bool, List, [], ◌∷◌, map, Ordering}
use mathlib.Core.Path.{subst}
use collette.Bytes.{Bytes}
use collette.Outcome.{Error, ok, call-eq_ok, ok_injective}
use collette.Range.{Range, contains}
use collette.Key
use collette.Key.{Key}
use collette.Item.{Item}
use collette.Bounds.{ScanRange, exact_encoder, encode_range}
use collette.Bounds.Exact.{AtBound, contains-encode_range_exact}
use collette.Store.{MultiStore, Name, Direction, Content, IsLawful}
use collette.Store.Listing.{Lists, ScansInOrder, all_ok}
use collette.Collection.{Collection, main_store}
use collette.Collection.Consistent.{Holds, Keyed, IsConsistent}
use collette.Scan.{Scan, full, directed, compile, range}
use collette.Scan.Open.{
  Entry, CollectionIterator, ScanExecutor, Results, collection_entry, next_stored, open_collection,
  iter, scan,
}
use collette.Scan.Records.{Drains, stop, step, ListsRecords, Presents, Lists-records}

module _ {R PK : Type 0} (b : MultiStore) (item : Item R PK) where
  pub drain_stored :
      (inner : Results b item)
      → Drains (next_stored b item) (record { inner = inner }) (map (collection_entry b item) inner)
  unfolding next_stored
  drain_stored [] = stop _ refl
  drain_stored (res ∷ rest) = step _ _ _ _ refl (drain_stored rest)

module _ {R PK : Type 0} (c : Collection R PK) where
  abbrev pub place : R → Bytes
  place r = c.pk_ops.encode (c.item.key r)

  -- The record is stored under its key.
  abbrev pub StoredIn : Content → R → Type 0
  StoredIn m r = Holds c.item m (place r) r

  pub Holds-placed :
      (ValidKey : PK → Type 0) (m : Content)
      → Keyed c.item c.pk_ops ValidKey m
      → (kb : Bytes) (r : R) → Holds c.item m kb r
      → (place r ≡ kb) × ValidKey (c.item.key r)
  Holds-placed ValidKey m keyed kb r h =
      let (r', dec, e, v) = keyed kb h.bytes h.there in
      let q : r' ≡ r = ok_injective (sym dec ∙ h.decodes) in
      (sym (ap place q) ∙ e, subst (λ x. ValidKey (c.item.key x)) q v)

  pub stored-Presents :
      (ValidKey : PK → Type 0) (b : MultiStore) (m : Content)
      → Keyed c.item c.pk_ops ValidKey m
      → Presents (StoredIn m) place m (collection_entry b c.item)
  unfolding collection_entry
  stored-Presents ValidKey b m keyed = record {
    decodes = λ k v e.
        let (r, dec, q, valid) = keyed k v e in
        (r, rw dec refl, q, record { bytes = v; there = ap m q ∙ e; decodes = dec });
    present = λ r s. (s.bytes, s.there, rw s.decodes refl);
  }

module _ {R PK : Type 0} (b : MultiStore) (law : IsLawful b) (lists : ScansInOrder b law)
    (c : Collection R PK) (db : b.Db) where
  -- The entries of a scan are those of the stored content.
  pub opened-Lists :
      (h : b.ReadHandle) (n : Name) (br : ScanRange) (d : Direction) {store : b.ReadStore}
      {entries : List (Bytes × Bytes)}
      → law.seen h ≡ law.stored db c.name
      → lists.OkReadHandle h
      → b.open_read h n ≡ ok store
      → b.scan store br d ≡ ok (all_ok entries)
      → Lists (law.stored db c.name n) br d entries
  opened-Lists h n br d {store} {entries} sees okh e q =
      subst (λ t. Lists t br d entries) (law.open_read_lem h n e ∙ ap (λ ct. ct n) sees)
        (lists.scan_lem store br d (lists.open_read_keeps h n okh e) q)

  abbrev executor_of : b.ReadHandle → ScanExecutor b c.item
  executor_of h = record { collection_name = main_store; read_handle = h }

  module _ {cmp : PK → PK → Ordering} {ValidKey : PK → Type 0}
      (keys : Key.IsLawful c.pk_ops cmp ValidKey) (okdb : lists.OkDb db)
      (consistent : IsConsistent c ValidKey (law.stored db c.name)) (r : Range PK)
      (valid_start : AtBound ValidKey r.0) (valid_end : AtBound ValidKey r.1) (d : Direction) where
    abbrev in_range : R → Bool
    in_range x = contains cmp r (c.item.key x)

    -- What is drained from the iterator.
    abbrev Drained : CollectionIterator b c.item → Type 0
    Drained it =
        (found : List (Entry R)) × Drains (next_stored b c.item) it (map ok found)
        × ListsRecords (StoredIn c (law.stored db c.name main_store)) (place c) in_range d found

    opened_collection :
        (h : b.ReadHandle) {it : CollectionIterator b c.item} (entries : List (Bytes × Bytes))
        → b.read db c.name ≡ ok h
        → open_collection b c.item (executor_of h) (encode_range (exact_encoder c.pk_ops) r) d
          ≡ ok it
        → it.inner ≡ all_ok entries
        → Drained it
    unfolding open_collection
    opened_collection h {it} entries q e f =
        let br = encode_range (exact_encoder c.pk_ops) r in
        let m = law.stored db c.name main_store in
        let (store, e1, rest) = call-eq_ok Error.backend (b.open_read h main_store) _ e in
        let (inner, e2, last) = call-eq_ok Error.backend (b.scan store br d) _ rest in
        let same : inner ≡ all_ok entries =
          ap (λ (x : CollectionIterator b c.item). x.inner) (ok_injective last) ∙ f in
        let listed =
          opened-Lists h main_store br d (law.read_lem db c.name q)
            (lists.read_keeps db c.name okdb q) e1 (e2 ∙ ap ok same) in
        let (found, all, l) =
          Lists-records (StoredIn c m) (place c) (stored-Presents c ValidKey b m consistent.keyed)
            br in_range d
            (λ x s.
              contains-encode_range_exact keys r (c.item.key x) valid_start valid_end
                (Holds-placed c ValidKey m consistent.keyed (place c x) x s).1)
            listed in
        (
          found,
          subst (λ i. Drains (next_stored b c.item) i (map ok found))
              (ap (λ x. record { inner = x }) (sym f))
              (subst (Drains (next_stored b c.item) (record { inner = all_ok entries })) all
                (drain_stored b c.item (all_ok entries))),
          l,
        )

    -- Over any backend that keeps its contract and lists its stores: in a consistent collection
    -- with lawful primary keys, if a range of valid keys is scanned and no entry of the backend
    -- fails, then the iterator returns no error, and each stored record whose key is in the range
    -- exactly once, in the order of the encoded keys and the direction, with the cursor of its
    -- key.
    pub scan-ListsRecords :
        {P : Type 0} (kp : Key P) {s : Scan (ScanExecutor b c.item) P}
        {it : CollectionIterator b c.item} (entries : List (Bytes × Bytes))
        → scan b c db ≡ ok s
        → iter b c.item kp
            (open_collection b c.item)
            (directed d (range (exact_encoder c.pk_ops) r s))
          ≡ ok it
        → it.inner ≡ all_ok entries
        → Drained it
    unfolding scan iter compile range
    scan-ListsRecords kp {s} {it} entries e f g =
        let (h, q, last) = call-eq_ok Error.backend (b.read db c.name) _ e in
        let t : full (executor_of h) ≡ s = ok_injective last in
        opened_collection h entries q
          (subst
            (λ x.
              iter b c.item kp (open_collection b c.item)
                (directed d (range (exact_encoder c.pk_ops) r x))
              ≡ ok it)
            (sym t) f)
          g

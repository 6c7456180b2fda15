-- ===== src/Scan/Records/Unique.antt =====
-- The look-up by the key of a unique index, from the database to the record.
use collette.Prelude.{◌≡◌, ◌↔◌, refl, sym, ap, ◌∙◌, Option, none, some, Ordering}
use collette.Prelude.Listings.{All-Mem}
use mathlib.Core.List.{Memᴰ}
use mathlib.Core.Path.{subst}
use collette.Bytes.{Bytes}
use collette.Outcome.{ok}
use collette.Key
use collette.Index.{Index}
use collette.Store.{MultiStore, IsLawful, Content, Contents}
use collette.Store.Available.{Available}
use collette.Collection.{Collection, main_store, decode_record}
use collette.Collection.Available.Methods.{IsReady}
use collette.Collection.Consistent.{Holds, IndexOk, IsConsistent}
use collette.Collection.Consistent.IndexStep.{some_injective, Holds-unique}
use collette.Collection.Consistent.Records.{encode_injective}
use collette.Scan.{full}
use collette.Scan.Open.{ScanExecutor, index_scan, get_by_index, get_primary}
use collette.Scan.Records.Primary.{StoredIn, Holds-placed}

-- The physical key of an entry is the index key.
abbrev pub IsUniqueKey : {R PK : Type 0} → Index R PK → Type 0
IsUniqueKey {PK} i =
    (k : i.IndexKey) (pk : PK) → i.store_ops.encode (i.kind.store_key k pk) ≡ i.key_ops.encode k

module _ (b : MultiStore) (law : IsLawful b) (av : Available b) {R PK : Type 0}
    (c : Collection R PK) (db : b.Db) (ready : IsReady b av c db) {ValidKey : PK → Type 0}
    (consistent : IsConsistent c ValidKey (law.stored db c.name)) (i : Index R PK)
    (registered : Memᴰ i c.indexes) (is_unique : IsUniqueKey i) where
  abbrev records : Content
  records = law.stored db c.name main_store

  index_ok : IndexOk c.item i records (law.stored db c.name i.name)
  index_ok =
      All-Mem (λ j. IndexOk c.item j records (law.stored db c.name j.name)) consistent.indexed
        registered

  -- The entry of a stored record.
  entry_of :
      (r : R)
      → StoredIn c records r
      → law.stored db c.name i.name (i.key_ops.encode (i.key r))
        ≡ some (c.pk_ops.encode (c.item.key r))
  entry_of r s =
      ap (law.stored db c.name i.name) (sym (is_unique (i.key r) (c.item.key r)))
      ∙ index_ok.complete (c.pk_ops.encode (c.item.key r)) r s

  -- What the look-up finds from an entry of the index on.
  abbrev Found : b.ReadHandle → Option Bytes → Bytes → Type 0
  Found h o k =
      (found : Option R) × (get_primary b c
          (record { collection_name = main_store; read_handle = h }) o
        ≡ ok found)
      × ((r : R) → (found ≡ some r) ↔ (StoredIn c records r × (i.key_ops.encode (i.key r) ≡ k)))

  primary-Found :
      (h : b.ReadHandle) (o : Option Bytes) (k : Bytes)
      → av.ReadHas h main_store
      → law.seen h ≡ law.stored db c.name
      → law.stored db c.name i.name k ≡ o
      → Found h o k
  unfolding get_primary decode_record
  primary-Found h none k has sees e = (
    none,
    refl,
    λ r. (
      λ q. absurd (cc),
      λ (s, q). absurd (none_is (sym e ∙ ap (law.stored db c.name i.name) (sym q) ∙ entry_of r s)),
    ),
  )
    where
      none_is : {x : Bytes} → none ≡ some x → ⊥
      none_is p = cc
  primary-Found h (some kb) k has sees e =
      let (r, held, q) = index_ok.sound k kb e in
      let (p, v) = Holds-placed c ValidKey records consistent.keyed kb r held in
      let (store, e1) = av.open_read_returns h main_store has in
      let (o, e2) = av.get_returns store kb in
      let there : o ≡ some held.bytes =
        law.get_lem store kb e2
        ∙ ap (λ (m : Content). m kb) (law.open_read_lem h main_store e1)
        ∙ ap (λ (x : Contents). x main_store kb) sees
        ∙ held.there in
      (
        some r,
        rw (e1, e2, there, held.decodes) refl,
        λ r'. (
          λ x.
              subst (λ y. StoredIn c records y × (i.key_ops.encode (i.key y) ≡ k))
                (some_injective x)
                (
                  subst (λ y. Holds c.item records y r) (sym p) held,
                  sym (is_unique (i.key r) (c.item.key r)) ∙ q,
                ),
          λ (s, q').
              let named = ap (law.stored db c.name i.name) (sym q') ∙ entry_of r' s in
              ap some (
                Holds-unique c.item records kb held
                  (subst (λ y. Holds c.item records y r') (some_injective (sym named ∙ e)) s)),
        ),
      )

  module _ {cmp : i.IndexKey → i.IndexKey → Ordering} {IsValid : i.IndexKey → Type 0}
      (index_keys : Key.IsLawful i.key_ops cmp IsValid)
      (valid : (r : R) → StoredIn c records r → IsValid (i.key r)) {P : Type 0} where
    -- In a ready and consistent collection over a backend that is available and keeps its
    -- contract, for a registered index whose physical key is the index key, and lawful index keys
    -- that are valid at every stored record: the look-up of a valid index key succeeds, and finds
    -- a record exactly if that record is stored and has the index key.
    pub get_by_index-found :
        (key : i.IndexKey)
        → IsValid key
        → (x : ScanExecutor b c.item) × (found : Option R) × (index_scan b c {P = P} i db
            ≡ ok (full x))
          × (get_by_index b c i x key ≡ ok found)
          × ((r : R) → (found ≡ some r) ↔ (StoredIn c records r × (i.key r ≡ key)))
    unfolding get_by_index index_scan
    get_by_index-found key v =
        let k = i.key_ops.encode key in
        let there = All-Mem (λ j. av.Has db c.name j.name) ready.indexed registered in
        let (h, e, has) = av.read_returns db c.name main_store ready.main in
        let sees = law.read_lem db c.name e in
        let (store, e1) = av.open_read_returns h i.name (has i.name there) in
        let (o, e2) = av.get_returns store k in
        let entry : law.stored db c.name i.name k ≡ o = sym (
          law.get_lem store k e2
          ∙ ap (λ (m : Content). m k) (law.open_read_lem h i.name e1)
          ∙ ap (λ (x : Contents). x i.name k) sees) in
        let (found, q, finds) = primary-Found h o k (has main_store ready.main) sees entry in
        let x : ScanExecutor b c.item = record { collection_name = main_store; read_handle = h } in
        (
          x,
          found,
          rw e refl,
          rw (e1, e2) q,
          λ r. (
            λ p.
                let (s, same) = (finds r).0 p in
                (s, encode_injective index_keys (i.key r) key (valid r s) v same),
            λ (s, p). (finds r).1 (s, ap i.key_ops.encode p),
          ),
        )

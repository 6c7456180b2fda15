-- ===== src/Collection/Session/Fresh.antt =====
-- collection.rs over backend/memory.rs: a collection that is built in a fresh namespace.
use collette.Prelude.{
  ◌≡◌, refl, ◌∙◌, ap, inl, inr, Bool-cases, Option, none, some, List, [], ◌∷◌, All,
}
use mathlib.Core.Path.{subst}
use collette.Bytes.{Bytes, ◌=ᵇ◌}
use collette.Outcome.{ok, ok_injective}
use collette.Index.{Index, store_names}
use collette.Map
use collette.Store.{Name, Contents}
use collette.Store.Put.{put_self}
use collette.Memory.{memory, Namespaces, NamespacedStores, prepare, prepared_stores, kept_store}
use collette.Memory.Contract.{memory_law, contents, stored, contents-insert, stored-insert}
use collette.Memory.Listing.{memory_listing, SortedNamespaces}
use collette.Collection.{Collection, main_store, build}
use collette.Collection.Consistent.{IsConsistent, IndexOk}
use collette.Collection.Keeps.{build-Keeps}
use collette.Memory.Available.{memory_available}
use collette.Collection.Available.Build.{build-IsReady}
use collette.Collection.InMemory.{IsSoundInMemory}

-- Stores that hold nothing.
abbrev pub IsEmpty : Contents → Type 0
IsEmpty ct = (n : Name) (k : Bytes) → ct n k ≡ none

insert-IsEmpty :
    (next : NamespacedStores) (m : Name)
    → IsEmpty (contents next)
    → IsEmpty (contents (Map.insert next m []))
unfolding Map.get
insert-IsEmpty next m h n k =
    ap (λ f. f n k) (contents-insert next m [])
    ∙ elim (Bool-cases (m =ᵇ n)) [ inl e ↦ rw e refl | inr e ↦ rw e (h n k) ]

-- Stores that are prepared in a fresh namespace are empty.
prepared_stores-IsEmpty :
    (names : List Name) (next : NamespacedStores)
    → IsEmpty (contents next)
    → IsEmpty (contents (prepared_stores [] names next))
unfolding prepared_stores kept_store Map.get
prepared_stores-IsEmpty [] next h = h
prepared_stores-IsEmpty (m ∷ names) next h =
    prepared_stores-IsEmpty names (Map.insert next m []) (insert-IsEmpty next m h)

-- Where nothing is stored, the indexes agree with the records.
empty-IsConsistent :
    {R PK : Type 0} (c : Collection R PK) (ValidKey : PK → Type 0) (ct : Contents)
    → IsEmpty ct
    → IsConsistent c ValidKey ct
empty-IsConsistent c ValidKey ct h = record {
  keyed = λ kb bytes e. absurd (none_some (h main_store kb) e);
  indexed = indexes_agree c.indexes;
}
  where
    none_some : {o : Option Bytes} {v : Bytes} → o ≡ none → o ≡ some v → ⊥
    none_some p q = cc

    indexes_agree :
        (is : List (Index _ _)) → All (λ i. IndexOk c.item i (ct main_store) (ct i.name)) is
    indexes_agree [] = tt
    indexes_agree (i ∷ is) = (
      record {
        complete = λ kb r k. absurd (none_some (h main_store kb) k.there);
        sound = λ sk kb e. absurd (none_some (h i.name sk) e);
      },
      indexes_agree is,
    )

module _ {R PK : Type 0} (c : Collection R PK) (db : Namespaces)
    (fresh : Map.get db c.name ≡ none) where
  pub built-IsEmpty : (db' : Namespaces) → build memory c db ≡ ok db' → IsEmpty (stored db' c.name)
  unfolding build prepare Map.get
  built-IsEmpty db' e n k =
      let e' = rw (fresh, build, prepare) at e in
      let stores = prepared_stores [] (store_names c.indexes (main_store ∷ [])) [] in
      subst (λ d. stored d c.name n k ≡ none) (ok_injective e')
        (ap (λ f. f c.name n k) (stored-insert db c.name (record { stores = stores }))
          ∙ ap (λ f. f n k) (put_self (stored db) c.name (contents stores))
          ∙ prepared_stores-IsEmpty (store_names c.indexes (main_store ∷ [])) [] (λ n k. refl) n k)

  pub built-IsSound :
      (ValidKey : PK → Type 0)
      → SortedNamespaces db
      → (db' : Namespaces) × (build memory c db ≡ ok db') × IsSoundInMemory c ValidKey db'
  unfolding memory_listing memory_law
  built-IsSound ValidKey sorted =
      let (db', e, p) = build-IsReady memory memory_available c db in
      (
        db',
        e,
        record {
          ready = p;
          ordered = (build-Keeps memory memory_law memory_listing c db sorted).kept db' e;
          consistent = empty-IsConsistent c ValidKey (stored db' c.name) (built-IsEmpty db' e);
        },
      )

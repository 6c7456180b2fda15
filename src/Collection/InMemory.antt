-- ===== src/Collection/InMemory.antt =====
-- collection.rs over backend/memory.rs: what a ready collection is there.
pub mod Stale
pub mod Sessions
use collette.Prelude.{◌≡◌, List, [], ◌∷◌, some, All}
use collette.Map
use collette.Index.{Index}
use collette.Memory.{memory, Namespaces, NamespacedState}
use collette.Memory.Contract.{memory_law}
use collette.Memory.Listing.{memory_listing}
use collette.Memory.Available.{Has, HasIn, Has-state, memory_available}
use collette.Collection.{Collection, main_store}
use collette.Collection.Available.Methods.{IsReady}
use collette.Collection.Session.Sound.{IsSound}

module _ {R PK : Type 0} (c : Collection R PK) where
  -- The namespace of the collection has its stores.
  pub record IsPrepared (db : Namespaces) : Type 0 where
    pub state : NamespacedState
    pub there : Map.get db c.name ≡ some state
    pub main : Has state.stores main_store
    pub indexed : All (λ i. Has state.stores i.name) c.indexes

  All-Has :
      (db : Namespaces) (state : NamespacedState)
      → Map.get db c.name ≡ some state
      → (is : List (Index R PK)) → All (λ i. HasIn db c.name i.name) is
      → All (λ i. Has state.stores i.name) is
  All-Has db state e [] h = tt
  All-Has db state e (i ∷ is) h =
      (Has-state db c.name state i.name e h.0, All-Has db state e is h.1)

  All-HasIn :
      (db : Namespaces) (state : NamespacedState)
      → Map.get db c.name ≡ some state
      → (is : List (Index R PK)) → All (λ i. Has state.stores i.name) is
      → All (λ i. HasIn db c.name i.name) is
  All-HasIn db state e [] h = tt
  All-HasIn db state e (i ∷ is) h = ((state, e, h.0), All-HasIn db state e is h.1)

  pub IsReady-IsPrepared : (db : Namespaces) → IsReady memory memory_available c db → IsPrepared db
  unfolding memory_available
  IsReady-IsPrepared db h =
      let (state, e, main) = h.main in
      record {
        state = state;
        there = e;
        main = main;
        indexed = All-Has db state e c.indexes h.indexed;
      }

  pub IsPrepared-IsReady : (db : Namespaces) → IsPrepared db → IsReady memory memory_available c db
  unfolding memory_available
  IsPrepared-IsReady db p = record {
    main = (p.state, p.there, p.main);
    indexed = All-HasIn db p.state p.there c.indexes p.indexed;
  }

  abbrev pub IsSoundInMemory : (PK → Type 0) → Namespaces → Type 0
  IsSoundInMemory ValidKey = IsSound memory memory_law memory_available memory_listing c ValidKey

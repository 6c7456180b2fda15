-- ===== src/Collection/Available/Build.antt =====
-- collection.rs: building a collection over an available backend.
use collette.Prelude.{◌≡◌, List, [], ◌∷◌, ◌++◌, All}
use collette.Outcome.{ok}
use collette.Store.{MultiStore, Name}
use collette.Store.Available.{Available}
use collette.Index.{Index, store_names}
use collette.Collection.{Collection, main_store, build}
use collette.Collection.Available.Methods.{IsReady}

All-append_split :
    (P : Name → Type 0) (xs : List Name) (y : Name) → All P (xs ++ y ∷ []) → All P xs × P y
All-append_split P [] y h = (tt, h.0)
All-append_split P (x ∷ xs) y h = let (a, b) = All-append_split P xs y h.1 in ((h.0, a), b)

All-store_names :
    {R PK : Type 0} (P : Name → Type 0) (is : List (Index R PK)) (out : List Name)
    → All P (store_names is out)
    → All P out × All (λ i. P i.name) is
unfolding store_names
All-store_names P [] out h = (h, tt)
All-store_names P (i ∷ is) out h =
    let (a, b) = All-store_names P is (out ++ i.name ∷ []) h in
    let (x, y) = All-append_split P out i.name a in (x, (y, b))

-- Building a collection over an available backend succeeds, whatever the database holds, and
-- leaves the collection ready: all its stores are there.
pub build-IsReady :
    (b : MultiStore) (av : Available b) {R PK : Type 0} (c : Collection R PK) (db : b.Db)
    → (db' : b.Db) × (build b c db ≡ ok db') × IsReady b av c db'
unfolding build
build-IsReady b av c db =
    let (d, e, has) = av.prepare_returns db c.name (store_names c.indexes (main_store ∷ [])) in
    let (x, y) = All-store_names (λ n. av.Has d c.name n) c.indexes (main_store ∷ []) has in
    (d, rw (e, build), record { main = x.0; indexed = y })

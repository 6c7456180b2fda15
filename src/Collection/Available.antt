-- ===== src/Collection/Available.antt =====
-- collection.rs and index.rs: the methods of a collection over an available backend.
pub mod Methods
pub mod Build
pub mod Reads
use collette.Prelude.{◌≡◌, refl, Option, none, some, List, [], ◌∷◌, All, String}
use collette.Bytes.{Bytes}
use collette.Outcome.{Outcome, Error, ok, map_err, ◌>>=◌}
use collette.Key.{Key}
use collette.Store.{MultiStore, Name}
use collette.Store.Available.{Available}
use collette.Index.{
  Index, update_index, update_indexes, remove_entry, remove_entries, write_entry, write_if_free,
  store_key_of, entry_key,
}
use collette.Collection
use collette.Collection.{Collection}
use collette.Collection.Runs.{Runs, returns, fails, Runs-bind, Runs-weaken, if-Runs}

-- A call of the backend that returns.
pub Runs-call :
    {A B : Type 0} {Q : B → Type 0} (m : Outcome String A) (f : A → Outcome Error B) (a : A)
    → m ≡ ok a
    → Runs Q (f a)
    → Runs Q (map_err Error.backend m >>= f)
Runs-call m f a e h = rw e h

module _ (b : MultiStore) (av : Available b) where
  -- The later handle has the stores of the earlier one, and was begun likewise.
  pub record Grows (w w' : b.WriteHandle) : Type 0 where
    pub kept : (n : Name) → av.WriteHas w n → av.WriteHas w' n
    pub begun_kept : (d : b.Db) (n : Name) → av.BegunFor d n w → av.BegunFor d n w'

  Grows-refl : (w : b.WriteHandle) → Grows w w
  Grows-refl w = record { kept = λ n h. h; begun_kept = λ d n h. h }

  Grows-trans : {u v w : b.WriteHandle} → Grows u v → Grows v w → Grows u w
  Grows-trans g h = record {
    kept = λ n p. h.kept n (g.kept n p);
    begun_kept = λ d n p. h.begun_kept d n (g.begun_kept d n p);
  }

  pub Grows-close : (w : b.WriteHandle) (n : Name) (s : b.WriteStore) → Grows w (b.close w n s)
  Grows-close w n s = record {
    kept = λ m h. av.close_keeps w n s m h;
    begun_kept = λ d m h. av.close_begun d m n w s h;
  }

  abbrev pub HasAll : {R PK : Type 0} → List (Index R PK) → b.WriteHandle → Type 0
  HasAll is w = All (λ i. av.WriteHas w i.name) is

  pub HasAll-Grows :
      {R PK : Type 0} (is : List (Index R PK)) {w w' : b.WriteHandle}
      → Grows w w'
      → HasAll is w
      → HasAll is w'
  HasAll-Grows [] g h = tt
  HasAll-Grows (i ∷ is) g h = (g.kept i.name h.0, HasAll-Grows is g h.1)

  -- A store that is there can be opened.
  pub open_write-Runs :
      {B : Type 0} {Q : B → Type 0} (w : b.WriteHandle) (n : Name)
      (f : b.WriteStore → Outcome Error B)
      → av.WriteHas w n
      → ((s : b.WriteStore) → Runs Q (f s))
      → Runs Q (map_err Error.backend (b.open_write w n) >>= f)
  open_write-Runs w n f h k = let (s, e) = av.open_write_returns w n h in Runs-call _ f s e (k s)

  module _ {R PK : Type 0} (pk_ops : Key PK) where
    write_if_free-Runs :
        (i : Index R PK) (w : b.WriteHandle) (pk : PK) (new : R) (s : b.WriteStore)
        (o : Option Bytes)
        → Runs (Grows w) (write_if_free b pk_ops i w pk new s o)
    unfolding write_if_free
    write_if_free-Runs i w pk new s none =
        let (s', e) = av.set_returns s (entry_key i new pk) (pk_ops.encode pk) in
        Runs-call _ _ s' e (returns _ (Grows-close w i.name s'))
    write_if_free-Runs i w pk new s (some _) = fails _ refl

    write_entry-Runs :
        (i : Index R PK) (w : b.WriteHandle) (pk : PK) (new : R) (s : b.WriteStore)
        → Runs (Grows w) (write_entry b pk_ops i w pk new s)
    unfolding write_entry
    write_entry-Runs i w pk new s =
        let (o, e) = av.get_staged_returns s (entry_key i new pk) in
        Runs-call _ _ o e (write_if_free-Runs i w pk new s o)

    update_index-Runs :
        (i : Index R PK) (w : b.WriteHandle) (pk : PK) (old : Option R) (new : R)
        → av.WriteHas w i.name
        → Runs (Grows w) (update_index b pk_ops i w pk old new)
    unfolding update_index
    update_index-Runs i w pk none new h =
        open_write-Runs w i.name _ h (λ s. write_entry-Runs i w pk new s)
    update_index-Runs i w pk (some old) new h = open_write-Runs w i.name _ h λ s.
        let (s', e) = av.remove_returns s (entry_key i old pk) in
        if-Runs (i.store_ops.beq (store_key_of i old pk) (store_key_of i new pk))
          (returns w (Grows-refl w)) (Runs-call _ _ s' e (write_entry-Runs i w pk new s'))

    remove_entry-Runs :
        (i : Index R PK) (w : b.WriteHandle) (pk : PK) (item : R)
        → av.WriteHas w i.name
        → Runs (Grows w) (remove_entry b pk_ops i w pk item)
    unfolding remove_entry
    remove_entry-Runs i w pk item h = open_write-Runs w i.name _ h λ s.
        let (s', e) = av.remove_returns s (entry_key i item pk) in
        Runs-call _ _ s' e (returns _ (Grows-close w i.name s'))

    pub update_indexes-Runs :
        (is : List (Index R PK)) (w : b.WriteHandle) (pk : PK) (old : Option R) (new : R)
        → HasAll is w
        → Runs (Grows w) (update_indexes b pk_ops is w pk old new)
    unfolding update_indexes
    update_indexes-Runs [] w pk old new h = returns w (Grows-refl w)
    update_indexes-Runs (i ∷ is) w pk old new h =
        Runs-bind _ (update_index-Runs i w pk old new h.0) λ w' g.
          Runs-weaken (update_indexes-Runs is w' pk old new (HasAll-Grows is g h.1))
            (λ w'' g'. Grows-trans g g')

    pub remove_entries-Runs :
        (is : List (Index R PK)) (w : b.WriteHandle) (pk : PK) (item : R)
        → HasAll is w
        → Runs (Grows w) (remove_entries b pk_ops is w pk item)
    unfolding remove_entries
    remove_entries-Runs [] w pk item h = returns w (Grows-refl w)
    remove_entries-Runs (i ∷ is) w pk item h =
        Runs-bind _ (remove_entry-Runs i w pk item h.0) λ w' g.
          Runs-weaken (remove_entries-Runs is w' pk item (HasAll-Grows is g h.1))
            (λ w'' g'. Grows-trans g g')

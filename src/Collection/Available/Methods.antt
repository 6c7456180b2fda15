-- ===== src/Collection/Available/Methods.antt =====
-- collection.rs: what the methods of a collection over an available backend return.
use collette.Prelude.{◌≡◌, ◌≢◌, refl, Option, none, some, List, [], ◌∷◌, All}
use collette.Bytes.{Bytes}
use collette.Outcome.{Outcome, Error, panic, map_err, ◌>>=◌}
use collette.Store.{MultiStore, IsLawful, Name, Contents}
use collette.Store.Available.{Available}
use collette.Index.{Index}
use collette.Collection
use collette.Collection.{
  Collection, main_store, insert, insert_found, update, update_found, save, remove_found,
  find_record, decode_record, write_record,
}
use collette.Collection.Spec.{spec_insert, spec_update, spec_save, spec_remove, spec_find}
use collette.Collection.Refinement.Methods.{
  insert-Refines, update-Refines, save-Refines, remove-Refines, get-Refines,
}
use collette.Collection.Runs.{
  Runs, returns, fails, Runs-bind, Runs-codec, shown_as, shown_as_specified,
}
use collette.Collection.Available.{
  Grows, Grows-close, HasAll, HasAll-Grows, Runs-call, open_write-Runs, update_indexes-Runs,
  remove_entries-Runs,
}

module _ (b : MultiStore) (av : Available b) {R PK : Type 0} (c : Collection R PK) where
  -- The namespace of the collection has its stores.
  pub record IsReady (db : b.Db) : Type 0 where
    pub main : av.Has db c.name main_store
    pub indexed : All (λ i. av.Has db c.name i.name) c.indexes

  -- A write handle of the collection, with its stores.
  record IsBegun (db : b.Db) (w : b.WriteHandle) : Type 0 where
    pub begun : av.BegunFor db c.name w
    pub main : av.WriteHas w main_store
    pub indexed : HasAll b av c.indexes w

  IsBegun-Grows :
      (db : b.Db) {w w' : b.WriteHandle} → Grows b av w w' → IsBegun db w → IsBegun db w'
  IsBegun-Grows db g h = record {
    begun = g.begun_kept db c.name h.begun;
    main = g.kept main_store h.main;
    indexed = HasAll-Grows b av c.indexes g h.indexed;
  }

  All-Has :
      {P Q : Name → Type 0} (is : List (Index R PK))
      → ((n : Name) → P n → Q n)
      → All (λ i. P i.name) is
      → All (λ i. Q i.name) is
  All-Has [] f h = tt
  All-Has (i ∷ is) f h = (f i.name h.0, All-Has is f h.1)

  commit-Runs :
      (db : b.Db) (w : b.WriteHandle)
      → IsBegun db w
      → Runs IsReady (map_err Error.backend (b.commit db w))
  commit-Runs db w h =
      let (d, e, kept) = av.commit_returns db c.name w h.begun in
      rw e (
        returns d
          (record { main = kept main_store h.main; indexed = All-Has c.indexes kept h.indexed }))

  module _ (to_bytes_returns : (r : R) → c.item.to_bytes r ≢ panic)
      (from_bytes_returns : (bytes : Bytes) → c.item.from_bytes bytes ≢ panic) (db : b.Db) where
    decode_record-Runs : (o : Option Bytes) → Runs (λ _. Unit {0}) (decode_record b c o)
    unfolding decode_record
    decode_record-Runs none = returns none tt
    decode_record-Runs (some bytes) =
        Runs-codec (c.item.from_bytes bytes) _ (from_bytes_returns bytes) (λ r. returns (some r) tt)

    find_record-Runs :
        (store : b.WriteStore) (pk : PK) → Runs (λ _. Unit {0}) (find_record b c store pk)
    unfolding find_record
    find_record-Runs store pk =
        let (o, e) = av.get_staged_returns store (c.pk_ops.encode pk) in
        Runs-call _ _ o e (decode_record-Runs o)

    module _ (w : b.WriteHandle) (h : IsBegun db w) (store : b.WriteStore) where
      write_record-Runs :
          (old : Option R) (value : R) → Runs IsReady (write_record b c db w store old value)
      unfolding write_record
      write_record-Runs old value =
          Runs-codec (c.item.to_bytes value) _ (to_bytes_returns value) λ bytes.
            let (s, e) = av.set_returns store (c.pk_ops.encode (c.item.key value)) bytes in
            let h' = IsBegun-Grows db (Grows-close b av w main_store s) h in
            Runs-call _ _ s e (
              Runs-bind _
                (update_indexes-Runs b av c.pk_ops c.indexes (b.close w main_store s)
                  (c.item.key value) old value h'.indexed)
                λ w' g. commit-Runs db w' (IsBegun-Grows db g h'))

      insert_found-Runs :
          (value : R) (existing : Option Bytes)
          → Runs IsReady (insert_found b c db value w store existing)
      unfolding insert_found
      insert_found-Runs value none = write_record-Runs none value
      insert_found-Runs value (some _) = fails _ refl

      update_found-Runs :
          (value : R) (found : Option R) → Runs IsReady (update_found b c db value w store found)
      unfolding update_found
      update_found-Runs value none = fails _ refl
      update_found-Runs value (some old) = write_record-Runs (some old) value

      remove_found-Runs :
          (pk : PK) (found : Option R)
          → IsReady db
          → Runs IsReady (remove_found b c db pk w store found)
      unfolding remove_found
      remove_found-Runs pk none p = returns db p
      remove_found-Runs pk (some r) p =
          let (s, e) = av.remove_returns store (c.pk_ops.encode pk) in
          let h' = IsBegun-Grows db (Grows-close b av w main_store s) h in
          Runs-call _ _ s e (
            Runs-bind _
              (remove_entries-Runs b av c.pk_ops c.indexes (b.close w main_store s) (c.item.key r) r
                h'.indexed)
              λ w' g. commit-Runs db w' (IsBegun-Grows db g h'))

    module _ (p : IsReady db) where
      opened :
          (f : b.WriteHandle → b.WriteStore → Outcome Error b.Db)
          → ((w : b.WriteHandle) (store : b.WriteStore) → IsBegun db w → Runs IsReady (f w store))
          → Runs IsReady (do
            tx ← map_err Error.backend (b.write db c.name)
            store ← map_err Error.backend (b.open_write tx main_store)
            f tx store)
      opened f k =
          let (w, e, begun, has) = av.write_returns db c.name main_store p.main in
          let h : IsBegun db w = record {
            begun = begun;
            main = has main_store p.main;
            indexed = All-Has c.indexes has p.indexed;
          } in
          Runs-call _ _ w e (open_write-Runs b av w main_store _ h.main (λ store. k w store h))

      -- In a ready collection whose codec does not panic, insert over an available backend neither
      -- fails in the backend nor panics, and leaves the collection ready.
      pub insert-Runs : (value : R) → Runs IsReady (insert b c db value)
      unfolding insert
      insert-Runs value = opened _ λ w store h.
          let (o, e) = av.get_staged_returns store (c.pk_ops.encode (c.item.key value)) in
          Runs-call _ _ o e (insert_found-Runs w h store value o)

      pub update-Runs : (value : R) → Runs IsReady (update b c db value)
      unfolding update
      update-Runs value = opened _ λ w store h.
          Runs-bind _ (find_record-Runs store (c.item.key value))
            λ found _. update_found-Runs w h store value found

      pub save-Runs : (value : R) → Runs IsReady (save b c db value)
      unfolding save
      save-Runs value = opened _ λ w store h.
          Runs-bind _ (find_record-Runs store (c.item.key value))
            λ found _. write_record-Runs w h store found value

      pub remove-Runs : (pk : PK) → Runs IsReady (Collection.remove b c db pk)
      unfolding Collection.remove
      remove-Runs pk = opened _ λ w store h.
          Runs-bind _ (find_record-Runs store pk) λ found _. remove_found-Runs w h store pk found p

      get-Runs : (pk : PK) → Runs (λ _. Unit {0}) (Collection.get b c db pk)
      unfolding Collection.get
      get-Runs pk =
          let (r, e, has) = av.read_returns db c.name main_store p.main in
          let (store, e') = av.open_read_returns r main_store (has main_store p.main) in
          let (o, e'') = av.get_returns store (c.pk_ops.encode pk) in
          Runs-call _ _ r e (Runs-call _ _ store e' (Runs-call _ _ o e'' (decode_record-Runs o)))

      module _ (law : IsLawful b) where
        abbrev pub contents : b.Db → Contents
        contents d = law.stored d c.name

        -- In a ready collection, which has its stores, whose codec does not panic, insert over a
        -- backend that is available and keeps its contract returns what is specified: the
        -- specified error, or a database that holds what is specified.
        pub shown-insert :
            (value : R)
            → shown_as contents (insert b c db value) ≡ spec_insert c (contents db) value
        shown-insert value =
            shown_as_specified (insert-Runs value) (insert-Refines b law c db value)

        -- In a ready collection whose codec does not panic, update over a backend that is
        -- available and keeps its contract returns what is specified: the specified error, or a
        -- database that holds what is specified.
        pub shown-update :
            (value : R)
            → shown_as contents (update b c db value) ≡ spec_update c (contents db) value
        shown-update value =
            shown_as_specified (update-Runs value) (update-Refines b law c db value)

        -- In a ready collection, which has its stores, whose codec does not panic, save over a
        -- backend that is available and keeps its contract returns what is specified: the error of
        -- the codec or of a taken index key, or a database that holds what is specified.
        pub shown-save :
            (value : R) → shown_as contents (save b c db value) ≡ spec_save c (contents db) value
        shown-save value = shown_as_specified (save-Runs value) (save-Refines b law c db value)

        -- In a ready collection, which has its stores, whose codec does not panic, remove over a
        -- backend that is available and keeps its contract returns what is specified: the error of
        -- the codec, or a database that holds what is specified.
        pub shown-remove :
            (pk : PK)
            → shown_as contents (Collection.remove b c db pk) ≡ spec_remove c (contents db) pk
        shown-remove pk = shown_as_specified (remove-Runs pk) (remove-Refines b law c db pk)

        -- In a ready collection whose codec does not panic, get over a backend that is available
        -- and keeps its contract returns the decoded record under the key, or the error of its
        -- codec.
        pub shown-get :
            (pk : PK) → shown_as (λ o. o) (Collection.get b c db pk) ≡ spec_find c (contents db) pk
        shown-get pk = shown_as_specified (get-Runs pk) (get-Refines b law c db pk)

-- ===== src/Collection/Refinement/Methods.antt =====
-- The methods of a collection, over any backend that keeps its contract, do what they promise.
use collette.Prelude.{◌≡◌, ◌≢◌, refl, sym, ap, ◌∙◌, Option, none, some}
use mathlib.Core.Path.{subst}
use collette.Bytes.{Bytes}
use collette.Outcome.{Outcome, Error, ok, map_err, ◌>>=◌}
use collette.Store.{MultiStore, Name, Content, Contents, IsLawful, put}
use collette.Collection.{
  Collection, main_store, insert, insert_found, update, update_found, save, remove, remove_found,
  get, find_record, decode_record, write_record,
}
use collette.Collection.Spec.{
  spec_find, spec_decode, spec_write, spec_insert, spec_insert_found, spec_update,
  spec_update_found, spec_save, spec_remove, spec_remove_found,
}
use collette.Collection.Refines.{
  Refines, done, failed, Refines-bind, Refines-backend, Refines-codec, Refines-then,
}
use collette.Collection.Refinement.{
  InScope, committed, update_indexes-Refines, remove_entries-Refines,
}

module _ {R PK : Type 0} (b : MultiStore) (c : Collection R PK) where
  -- The look-up of the record of a key.
  pub decode_record-Refines :
      (o : Option Bytes)
      → Refines {A = Option R} (λ _. Unit {0}) (λ o. o) (spec_decode c o) (decode_record b c o)
  unfolding decode_record spec_decode
  decode_record-Refines none = done none refl tt
  decode_record-Refines (some bytes) =
      Refines-codec (c.item.from_bytes bytes) _ _ λ r e. done (some r) refl tt

module _ {R PK : Type 0} (b : MultiStore) (law : IsLawful b) (c : Collection R PK) (d : b.Db) where
  -- The other namespaces are as they were.
  abbrev pub Elsewhere : b.Db → Type 0
  Elsewhere d' = (m : Name) → c.name ≢ m → law.stored d' m ≡ law.stored d m

  abbrev pub shown : b.Db → Contents
  shown d' = law.stored d' c.name

  find_record-Refines :
      (store : b.WriteStore) (pk : PK) (ct : Contents)
      → law.writable store ≡ ct main_store
      → Refines {A = Option R}
          (λ _. Unit {0})
          (λ o. o)
          (spec_find c ct pk)
          (find_record b c store pk)
  unfolding find_record spec_find
  find_record-Refines store pk ct e =
      Refines-backend (b.get_staged store (c.pk_ops.encode pk)) _ λ o g.
        rw (sym (law.get_staged_lem store _ g ∙ ap (λ (x : Content). x (c.pk_ops.encode pk)) e))
          (decode_record-Refines b c o)

  main_written :
      (w : b.WriteHandle) (store : b.WriteStore) (bytes : Bytes) (pk : PK) {store' : b.WriteStore}
      → law.writable store ≡ law.staged w main_store
      → b.set store (c.pk_ops.encode pk) bytes ≡ ok store'
      → law.staged (b.close w main_store store')
        ≡ put
            (law.staged w)
            main_store
            (put (law.staged w main_store) (c.pk_ops.encode pk) (some bytes))
  main_written w store bytes pk {store'} e g =
      law.staged-close w main_store store'
      ∙ ap (put (law.staged w) main_store) (
          law.set_lem store (c.pk_ops.encode pk) bytes g
          ∙ ap (λ (x : Content). put x (c.pk_ops.encode pk) (some bytes)) e)

  main_removed :
      (w : b.WriteHandle) (store : b.WriteStore) (pk : PK) {store' : b.WriteStore}
      → law.writable store ≡ law.staged w main_store
      → b.remove store (c.pk_ops.encode pk) ≡ ok store'
      → law.staged (b.close w main_store store')
        ≡ put (law.staged w) main_store (put (law.staged w main_store) (c.pk_ops.encode pk) none)
  main_removed w store pk {store'} e g =
      law.staged-close w main_store store'
      ∙ ap (put (law.staged w) main_store) (
          law.remove_lem store (c.pk_ops.encode pk) g
          ∙ ap (λ (x : Content). put x (c.pk_ops.encode pk) none) e)

  write_record-Refines :
      (w : b.WriteHandle) (store : b.WriteStore) (old : Option R) (value : R)
      → InScope b law d c.name w
      → law.writable store ≡ law.staged w main_store
      → Refines Elsewhere shown
          (spec_write c (law.staged w) old value)
          (write_record b c d w store old value)
  unfolding write_record spec_write
  write_record-Refines w store old value h e =
      let pk = c.item.key value in
      Refines-codec (c.item.to_bytes value) _ _ λ bytes _.
        Refines-backend (b.set store (c.pk_ops.encode pk) bytes) _ λ store' g.
          Refines-then _
            (rw (← main_written w store bytes pk e g) (
              update_indexes-Refines b law c.pk_ops d c.name pk c.indexes
                (b.close w main_store store') old value
                (law.begun-close d c.name main_store w store' h)))
            (committed b law d c.name)

  insert_found-Refines :
      (w : b.WriteHandle) (store : b.WriteStore) (value : R) (existing : Option Bytes)
      → InScope b law d c.name w
      → law.writable store ≡ law.staged w main_store
      → Refines Elsewhere shown
          (spec_insert_found c (law.staged w) value existing)
          (insert_found b c d value w store existing)
  unfolding insert_found spec_insert_found
  insert_found-Refines w store value (some _) h e = failed _ refl
  insert_found-Refines w store value none h e = write_record-Refines w store none value h e

  update_found-Refines :
      (w : b.WriteHandle) (store : b.WriteStore) (value : R) (found : Option R)
      → InScope b law d c.name w
      → law.writable store ≡ law.staged w main_store
      → Refines Elsewhere shown
          (spec_update_found c (law.staged w) value found)
          (update_found b c d value w store found)
  unfolding update_found spec_update_found
  update_found-Refines w store value none h e = failed _ refl
  update_found-Refines w store value (some old) h e =
      write_record-Refines w store (some old) value h e

  remove_found-Refines :
      (w : b.WriteHandle) (store : b.WriteStore) (pk : PK) (found : Option R)
      → InScope b law d c.name w
      → law.writable store ≡ law.staged w main_store
      → law.staged w ≡ law.stored d c.name
      → Refines Elsewhere shown
          (ok (spec_remove_found c (law.staged w) pk found))
          (remove_found b c d pk w store found)
  unfolding remove_found spec_remove_found
  remove_found-Refines w store pk none h e q = done d (ap (λ (x : Contents). ok x) q) (λ m ne. refl)
  remove_found-Refines w store pk (some r) h e q =
      Refines-backend (b.remove store (c.pk_ops.encode pk)) _ λ store' g.
        Refines-then _
          (rw (← main_removed w store pk e g) (
            remove_entries-Refines b law c.pk_ops d c.name (c.item.key r) c.indexes
              (b.close w main_store store') r (law.begun-close d c.name main_store w store' h)))
          (committed b law d c.name)

  -- The transaction is opened on what is stored.
  opened :
      (s : Contents → Outcome Error Contents)
      (f : b.WriteHandle → b.WriteStore → Outcome Error b.Db)
      → ((w : b.WriteHandle) (store : b.WriteStore)
          → InScope b law d c.name w
          → law.writable store ≡ law.staged w main_store
          → law.staged w ≡ law.stored d c.name
          → Refines Elsewhere shown (s (law.staged w)) (f w store))
      → Refines Elsewhere shown (s (law.stored d c.name)) (do
        tx ← map_err Error.backend (b.write d c.name)
        store ← map_err Error.backend (b.open_write tx main_store)
        f tx store)
  opened s f k = Refines-backend (b.write d c.name) _ λ w g.
      let (q, h) = law.write_lem d c.name g in
      Refines-backend (b.open_write w main_store) _ λ store g'.
        subst (λ ct. Refines Elsewhere shown (s ct) (f w store)) q
          (k w store h (law.open_write_lem w main_store g') q)

  -- Over any backend that keeps its contract, insert fails as specified, or changes the stores of
  -- its namespace as specified and no other namespace, unless the backend fails or there is a
  -- panic.
  pub insert-Refines :
      (value : R)
      → Refines Elsewhere shown (spec_insert c (law.stored d c.name) value) (insert b c d value)
  unfolding insert spec_insert
  insert-Refines value =
      opened (λ ct. spec_insert c ct value) _
        λ w store h e q.
          Refines-backend (b.get_staged store (c.pk_ops.encode (c.item.key value))) _ λ existing g.
            subst
              (λ o.
                Refines Elsewhere shown (spec_insert_found c (law.staged w) value o)
                  (insert_found b c d value w store existing))
              (law.get_staged_lem store _ g
                ∙ ap (λ (x : Content). x (c.pk_ops.encode (c.item.key value))) e)
              (insert_found-Refines w store value existing h e)

  -- Over any backend that keeps its contract, update fails as specified, a missing record as not
  -- found, or replaces the record and its index entries as specified and changes no other
  -- namespace, unless the backend fails or there is a panic.
  pub update-Refines :
      (value : R)
      → Refines Elsewhere shown (spec_update c (law.stored d c.name) value) (update b c d value)
  unfolding update spec_update
  update-Refines value =
      opened (λ ct. spec_update c ct value) _
        λ w store h e q.
          Refines-bind _ _ (find_record-Refines store (c.item.key value) (law.staged w) e)
            λ found _. update_found-Refines w store value found h e

  -- Over any backend that keeps its contract, save fails as specified, or writes the record,
  -- whether its key is there or not, and replaces the index entries of an old record, as
  -- specified, and changes no other namespace, unless the backend fails or there is a panic.
  pub save-Refines :
      (value : R)
      → Refines Elsewhere shown (spec_save c (law.stored d c.name) value) (save b c d value)
  unfolding save spec_save
  save-Refines value =
      opened (λ ct. spec_save c ct value) _
        λ w store h e q.
          Refines-bind _ _ (find_record-Refines store (c.item.key value) (law.staged w) e)
            λ found _. write_record-Refines w store found value h e

  -- Over any backend that keeps its contract, remove fails as specified, or leaves a missing
  -- record alone, or removes the record and its index entries as specified, and changes no other
  -- namespace, unless the backend fails or there is a panic.
  pub remove-Refines :
      (pk : PK) → Refines Elsewhere shown (spec_remove c (law.stored d c.name) pk) (remove b c d pk)
  unfolding remove spec_remove
  remove-Refines pk =
      opened (λ ct. spec_remove c ct pk) _
        λ w store h e q.
          Refines-bind _ _ (find_record-Refines store pk (law.staged w) e)
            λ found _. remove_found-Refines w store pk found h e q

  -- Over any backend that keeps its contract, get returns the decoded record that is stored under
  -- the key, unless the backend fails or there is a panic.
  pub get-Refines :
      (pk : PK)
      → Refines {A = Option R}
          (λ _. Unit {0})
          (λ o. o)
          (spec_find c (law.stored d c.name) pk)
          (get b c d pk)
  unfolding get spec_find
  get-Refines pk = Refines-backend (b.read d c.name) _ λ handle g.
      Refines-backend (b.open_read handle main_store) _ λ store g'.
        Refines-backend (b.get store (c.pk_ops.encode pk)) _ λ o g''.
          subst
            (λ v.
              Refines {A = Option R} (λ _. Unit {0}) (λ o. o) (spec_decode c v)
                (decode_record b c o))
            (law.get_lem store _ g''
              ∙ ap (λ (x : Content). x (c.pk_ops.encode pk))
                  (law.open_read_lem handle main_store g'
                    ∙ ap (λ (x : Contents). x main_store) (law.read_lem d c.name g)))
            (decode_record-Refines b c o)

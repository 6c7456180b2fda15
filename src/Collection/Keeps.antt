-- ===== src/Collection/Keeps.antt =====
-- The methods of a collection keep the invariant of the backend under which its scans are ordered.
use collette.Prelude.{
  ◌≡◌, refl, Bool, true, false, String, Option, none, some, List, [], ◌∷◌, if◌then◌else◌,
}
use mathlib.Core.Path.{subst}
use collette.Bytes.{Bytes}
use collette.Outcome.{
  Outcome, Error, ok, err, panic, map_err, map_err-eq_ok, ◌>>=◌, >>=-eq_ok, call-eq_ok,
  ok_injective,
}
use collette.Key.{Key}
use collette.Store.{MultiStore, IsLawful}
use collette.Store.Listing.{ScansInOrder}
use collette.Index.{
  Index, write_if_free, write_entry, update_index, update_indexes, remove_entry, remove_entries,
  store_key_of,
}
use collette.Index.{store_names}
use collette.Collection
use collette.Collection.{
  Collection, main_store, build, write_record, insert, insert_found, update, update_found, save,
  find_record, remove_found,
}

-- What the computation returns, if anything, satisfies `P`.
pub record Keeps {A : Type 0} (P : A → Type 0) (m : Outcome Error A) : Type 0 where
  pub kept : (a : A) → m ≡ ok a → P a

module _ {A B : Type 0} {Q : B → Type 0} where
  Keeps-bind :
      (m : Outcome Error A) (f : A → Outcome Error B)
      → ((a : A) → m ≡ ok a → Keeps Q (f a))
      → Keeps Q (m >>= f)
  Keeps-bind m f k = record { kept = λ b e. let (a, q, r) = >>=-eq_ok m f e in (k a q).kept b r }

  Keeps-call :
      (g : String → Error) (m : Outcome String A) (f : A → Outcome Error B)
      → ((a : A) → m ≡ ok a → Keeps Q (f a))
      → Keeps Q (map_err g m >>= f)
  Keeps-call g m f k = record {
    kept = λ b e. let (a, q, r) = call-eq_ok g m f e in (k a q).kept b r;
  }

module _ {A : Type 0} {Q : A → Type 0} where
  Keeps-ok : (a : A) → Q a → Keeps Q (ok a)
  Keeps-ok a h = record { kept = λ b e. subst Q (ok_injective e) h }

  Keeps-err : (t : Error) → Keeps Q (err t)
  Keeps-err t = record { kept = λ b e. absurd (cc) }

  if-Keeps :
      (t : Bool) {m n : Outcome Error A} → Keeps Q m → Keeps Q n → Keeps Q (if t then m else n)
  if-Keeps true h k = h
  if-Keeps false h k = k

-- What a build returns is what `prepare` has returned.
pub prepared-Keeps :
    (b : MultiStore) {R PK : Type 0} (c : Collection R PK) (d : b.Db) {P : b.Db → Type 0}
    → ((d' : b.Db) → b.prepare d c.name (store_names c.indexes (main_store ∷ [])) ≡ ok d' → P d')
    → Keeps P (build b c d)
unfolding build
prepared-Keeps b c d {P} = built (b.prepare d c.name _)
  where
    built :
        (m : Outcome String b.Db)
        → ((d' : b.Db) → m ≡ ok d' → P d')
        → Keeps P (elim m [ ok d' ↦ ok d' | err e ↦ panic | panic ↦ panic ])
    built (ok d') k = Keeps-ok d' (k d' refl)
    built (err t) k = record { kept = λ a e. absurd (cc) }
    built panic k = record { kept = λ a e. absurd (cc) }

module _ (b : MultiStore) (law : IsLawful b) (l : ScansInOrder b law) {R PK : Type 0} where
  module _ (pk_ops : Key PK) (i : Index R PK) (w : b.WriteHandle) (ok_w : l.OkWriteHandle w) where
    write_entry-Keeps :
        (pk : PK) (new : R) (s : b.WriteStore)
        → l.OkWriteStore s
        → Keeps l.OkWriteHandle (write_entry b pk_ops i w pk new s)
    unfolding write_entry write_if_free
    write_entry-Keeps pk new s h = Keeps-call _ _ _ (λ found _. free found)
      where
        free :
            (found : Option Bytes)
            → Keeps l.OkWriteHandle (write_if_free b pk_ops i w pk new s found)
        free (some _) = Keeps-err _
        free none =
            Keeps-call _ _ _
              λ s' e. Keeps-ok _ (l.close_keeps w i.name s' ok_w (l.set_keeps s _ _ h e))

    update_index-Keeps :
        (pk : PK) (old : Option R) (new : R)
        → Keeps l.OkWriteHandle (update_index b pk_ops i w pk old new)
    unfolding update_index
    update_index-Keeps pk none new =
        Keeps-call _ _ _ λ s e. write_entry-Keeps pk new s (l.open_write_keeps w i.name ok_w e)
    update_index-Keeps pk (some old) new = Keeps-call _ _ _ λ s e.
        if-Keeps (i.store_ops.beq (store_key_of i old pk) (store_key_of i new pk)) (Keeps-ok w ok_w)
          (Keeps-call _ _ _ λ s' e'.
            write_entry-Keeps pk new s'
              (l.remove_keeps s _ (l.open_write_keeps w i.name ok_w e) e'))

    remove_entry-Keeps :
        (pk : PK) (item : R) → Keeps l.OkWriteHandle (remove_entry b pk_ops i w pk item)
    unfolding remove_entry
    remove_entry-Keeps pk item = Keeps-call _ _ _ λ s e. Keeps-call _ _ _ λ s' e'. Keeps-ok _ (
        l.close_keeps w i.name s' ok_w (l.remove_keeps s _ (l.open_write_keeps w i.name ok_w e) e'))

  module _ (pk_ops : Key PK) where
    update_indexes-Keeps :
        (is : List (Index R PK)) (w : b.WriteHandle) (pk : PK) (old : Option R) (new : R)
        → l.OkWriteHandle w
        → Keeps l.OkWriteHandle (update_indexes b pk_ops is w pk old new)
    unfolding update_indexes
    update_indexes-Keeps [] w pk old new h = Keeps-ok w h
    update_indexes-Keeps (i ∷ is) w pk old new h = Keeps-bind _ _ λ w' e.
        update_indexes-Keeps is w' pk old new
          ((update_index-Keeps pk_ops i w h pk old new).kept w' e)

    remove_entries-Keeps :
        (is : List (Index R PK)) (w : b.WriteHandle) (pk : PK) (item : R)
        → l.OkWriteHandle w
        → Keeps l.OkWriteHandle (remove_entries b pk_ops is w pk item)
    unfolding remove_entries
    remove_entries-Keeps [] w pk item h = Keeps-ok w h
    remove_entries-Keeps (i ∷ is) w pk item h = Keeps-bind _ _ λ w' e.
        remove_entries-Keeps is w' pk item ((remove_entry-Keeps pk_ops i w h pk item).kept w' e)

  module _ (c : Collection R PK) (d : b.Db) (ok_d : l.OkDb d) where
    pub build-Keeps : Keeps l.OkDb (build b c d)
    build-Keeps = prepared-Keeps b c d (λ d' q. l.prepare_keeps d c.name _ ok_d q)

    committed :
        (w : b.WriteHandle)
        → l.OkWriteHandle w
        → Keeps l.OkDb (map_err Error.backend (b.commit d w))
    committed w h = record {
      kept = λ d' e. l.commit_keeps d w ok_d h (map_err-eq_ok Error.backend _ e);
    }

    module _ (w : b.WriteHandle) (ok_w : l.OkWriteHandle w) (s : b.WriteStore)
        (ok_s : l.OkWriteStore s) where
      write_record-Keeps :
          (old : Option R) (value : R) → Keeps l.OkDb (write_record b c d w s old value)
      unfolding write_record
      write_record-Keeps old value = Keeps-call Error.codec (c.item.to_bytes value) _ λ bytes _.
          Keeps-call Error.backend (b.set s (c.pk_ops.encode (c.item.key value)) bytes) _ λ s' e.
            Keeps-bind _ _ λ w' e'. committed w' (
              (update_indexes-Keeps c.pk_ops c.indexes _ _ old value
                  (l.close_keeps w main_store s' ok_w (l.set_keeps s _ _ ok_s e))).kept
                w' e')

      insert_found-Keeps :
          (value : R) (found : Option Bytes) → Keeps l.OkDb (insert_found b c d value w s found)
      unfolding insert_found
      insert_found-Keeps value none = write_record-Keeps none value
      insert_found-Keeps value (some _) = Keeps-err _

      update_found-Keeps :
          (value : R) (found : Option R) → Keeps l.OkDb (update_found b c d value w s found)
      unfolding update_found
      update_found-Keeps value none = Keeps-err _
      update_found-Keeps value (some old) = write_record-Keeps (some old) value

      remove_found-Keeps :
          (pk : PK) (found : Option R) → Keeps l.OkDb (remove_found b c d pk w s found)
      unfolding remove_found
      remove_found-Keeps pk none = Keeps-ok d ok_d
      remove_found-Keeps pk (some r) =
          Keeps-call Error.backend (b.remove s (c.pk_ops.encode pk)) _ λ s' e.
            Keeps-bind _ _ λ w' e'. committed w' (
              (remove_entries-Keeps c.pk_ops c.indexes _ _ r
                  (l.close_keeps w main_store s' ok_w (l.remove_keeps s _ ok_s e))).kept
                w' e')

    begun :
        (f : b.WriteHandle → b.WriteStore → Outcome Error b.Db)
        → ((w : b.WriteHandle) (s : b.WriteStore)
            → l.OkWriteHandle w
            → l.OkWriteStore s
            → Keeps l.OkDb (f w s))
        → Keeps l.OkDb (do
          tx ← map_err Error.backend (b.write d c.name)
          store ← map_err Error.backend (b.open_write tx main_store)
          f tx store)
    begun f k = Keeps-call Error.backend (b.write d c.name) _ λ w e.
        Keeps-call Error.backend (b.open_write w main_store) _ λ s e'.
          k w s (l.write_keeps d c.name ok_d e)
            (l.open_write_keeps w main_store (l.write_keeps d c.name ok_d e) e')

    pub insert-Keeps : (value : R) → Keeps l.OkDb (insert b c d value)
    unfolding insert
    insert-Keeps value = begun _ λ w s h k.
        Keeps-call Error.backend (b.get_staged s (c.pk_ops.encode (c.item.key value))) _
          λ found _. insert_found-Keeps w h s k value found

    pub update-Keeps : (value : R) → Keeps l.OkDb (update b c d value)
    unfolding update
    update-Keeps value =
        begun _ λ w s h k. Keeps-bind _ _ λ found _. update_found-Keeps w h s k value found

    pub save-Keeps : (value : R) → Keeps l.OkDb (save b c d value)
    unfolding save
    save-Keeps value =
        begun _ λ w s h k. Keeps-bind _ _ λ found _. write_record-Keeps w h s k found value

    pub remove-Keeps : (pk : PK) → Keeps l.OkDb (Collection.remove b c d pk)
    unfolding Collection.remove
    remove-Keeps pk =
        begun _ λ w s h k. Keeps-bind _ _ λ found _. remove_found-Keeps w h s k pk found

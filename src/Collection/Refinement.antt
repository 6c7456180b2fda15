-- ===== src/Collection/Refinement.antt =====
-- Index maintenance, over any backend that keeps its contract, does what the specification says;
-- the methods of a collection stand in the module Methods.
pub mod Methods
use collette.Prelude.{
  ◌≢◌, ◌≡◌, refl, sym, ap, ◌∙◌, Option, none, some, List, [], ◌∷◌, if◌then◌else◌, inl, inr,
  Bool-cases,
}
use collette.Bytes.{Bytes}
use collette.Outcome.{Error, ok, map_err, ◌>>=◌}
use collette.Key.{Key}
use collette.Store.{MultiStore, Name, Content, Contents, IsLawful, put}
use collette.Store.Put.{put_self, put_ne}
use collette.Index.{
  Index, store_key_of, entry_key, update_index, write_entry, write_if_free, remove_entry,
  update_indexes, remove_entries,
}
use collette.Collection.Spec.{
  spec_write_entry, spec_update_index, spec_remove_entry, spec_update_indexes, spec_remove_entries,
}
use collette.Collection.Refines.{Refines, done, failed, Refines-bind, Refines-backend, Refines-last}

module _ (b : MultiStore) (law : IsLawful b) (d : b.Db) (n : Name) where
  -- The handle was begun for the namespace `n`.
  abbrev pub InScope : b.WriteHandle → Type 0
  InScope w = law.Begun d n w

  -- A store that holds `ct` is closed.
  pub closed :
      (w : b.WriteHandle) (m : Name) (s : b.WriteStore) {ct : Content}
      → InScope w
      → law.writable s ≡ ct
      → Refines InScope law.staged (ok (put (law.staged w) m ct)) (ok (b.close w m s))
  closed w m s h e =
      done (b.close w m s)
        (ap (λ (x : Contents). ok x)
          (ap (put (law.staged w) m) (sym e) ∙ sym (law.staged-close w m s)))
        (law.begun-close d n m w s h)

  -- A commit shows what was staged, and leaves the other namespaces as they were.
  pub committed :
      (w : b.WriteHandle)
      → InScope w
      → Refines
          (λ (d' : b.Db). (m : Name) → n ≢ m → law.stored d' m ≡ law.stored d m)
          (λ d'. law.stored d' n)
          (ok (law.staged w))
          (map_err Error.backend (b.commit d w))
  committed w h = Refines-last (b.commit d w) λ d' e.
      let p : law.stored d' ≡ put (law.stored d) n (law.staged w) = law.commit_lem d n w h e in
      done d'
        (ap (λ (x : Contents). ok x)
          (sym (ap (λ (x : Name → Contents). x n) p ∙ put_self (law.stored d) n (law.staged w))))
        (λ m ne. ap (λ (x : Name → Contents). x m) p ∙ put_ne (law.stored d) n (law.staged w) m ne)

module _ {R PK : Type 0} (b : MultiStore) (law : IsLawful b) (pk_ops : Key PK) (d : b.Db) (n : Name)
    (i : Index R PK) (w : b.WriteHandle) (pk : PK) (h : InScope b law d n w) where
  write_if_free-Refines :
      (new : R) (store : b.WriteStore) (ct : Content) (found : Option Bytes)
      → law.writable store ≡ ct
      → ct (entry_key i new pk) ≡ found
      → Refines
          (InScope b law d n)
          law.staged
          (spec_write_entry pk_ops i (law.staged w) pk new ct)
          (write_if_free b pk_ops i w pk new store found)
  unfolding write_if_free spec_write_entry
  write_if_free-Refines new store ct (some v) e f = failed _ (rw (f, spec_write_entry))
  write_if_free-Refines new store ct none e f =
      rw (f, spec_write_entry)
        (Refines-backend (b.set store (entry_key i new pk) (pk_ops.encode pk)) _ λ store' g.
          closed b law d n w i.name store' h (
            law.set_lem store _ _ g
            ∙ ap (λ (x : Content). put x (entry_key i new pk) (some (pk_ops.encode pk))) e))

  write_entry-Refines :
      (new : R) (store : b.WriteStore) (ct : Content)
      → law.writable store ≡ ct
      → Refines
          (InScope b law d n)
          law.staged
          (spec_write_entry pk_ops i (law.staged w) pk new ct)
          (write_entry b pk_ops i w pk new store)
  unfolding write_entry
  write_entry-Refines new store ct e =
      Refines-backend (b.get_staged store (entry_key i new pk)) _ λ found g.
        write_if_free-Refines new store ct found e
          (sym (law.get_staged_lem store _ g ∙ ap (λ (x : Content). x (entry_key i new pk)) e))

  removed :
      (old : R) (store : b.WriteStore) {store' : b.WriteStore}
      → b.open_write w i.name ≡ ok store
      → b.remove store (entry_key i old pk) ≡ ok store'
      → law.writable store' ≡ put (law.staged w i.name) (entry_key i old pk) none
  removed old store g g' =
      law.remove_lem store _ g'
      ∙ ap (λ (x : Content). put x (entry_key i old pk) none) (law.open_write_lem w i.name g)

  update_opened :
      (old new : R) (store : b.WriteStore)
      → b.open_write w i.name ≡ ok store
      → Refines
          (InScope b law d n)
          law.staged
          (spec_update_index pk_ops i (law.staged w) pk (some old) new)
          (if i.store_ops.beq (store_key_of i old pk) (store_key_of i new pk) then ok w else do
            store' ← map_err Error.backend (b.remove store (entry_key i old pk))
            write_entry b pk_ops i w pk new store')
  unfolding spec_update_index
  update_opened old new store g =
      elim (Bool-cases (i.store_ops.beq (store_key_of i old pk) (store_key_of i new pk))) [
        | inl same ↦ rw same (done w refl h)
        | inr other ↦ rw other (
            Refines-backend (b.remove store (entry_key i old pk)) _
              λ store' g'. write_entry-Refines new store' _ (removed old store g g'))
      ]

  update_index-Refines :
      (old : Option R) (new : R)
      → Refines
          (InScope b law d n)
          law.staged
          (spec_update_index pk_ops i (law.staged w) pk old new)
          (update_index b pk_ops i w pk old new)
  unfolding update_index spec_update_index
  update_index-Refines none new =
      Refines-backend (b.open_write w i.name) _
        λ store g. write_entry-Refines new store _ (law.open_write_lem w i.name g)
  update_index-Refines (some old) new =
      Refines-backend (b.open_write w i.name) _ λ store g. update_opened old new store g

  remove_entry-Refines :
      (item : R)
      → Refines
          (InScope b law d n)
          law.staged
          (ok (spec_remove_entry pk_ops i (law.staged w) pk item))
          (remove_entry b pk_ops i w pk item)
  unfolding remove_entry spec_remove_entry
  remove_entry-Refines item = Refines-backend (b.open_write w i.name) _ λ store g.
      Refines-backend (b.remove store (entry_key i item pk)) _
        λ store' g'. closed b law d n w i.name store' h (removed item store g g')

module _ {R PK : Type 0} (b : MultiStore) (law : IsLawful b) (pk_ops : Key PK) (d : b.Db) (n : Name)
    (pk : PK) where
  pub update_indexes-Refines :
      (is : List (Index R PK)) (w : b.WriteHandle) (old : Option R) (new : R)
      → InScope b law d n w
      → Refines
          (InScope b law d n)
          law.staged
          (spec_update_indexes pk_ops is (law.staged w) pk old new)
          (update_indexes b pk_ops is w pk old new)
  unfolding update_indexes spec_update_indexes
  update_indexes-Refines [] w old new h = done w refl h
  update_indexes-Refines (i ∷ is) w old new h =
      Refines-bind _ _ (update_index-Refines b law pk_ops d n i w pk h old new)
        λ w' h'. update_indexes-Refines is w' old new h'

  pub remove_entries-Refines :
      (is : List (Index R PK)) (w : b.WriteHandle) (item : R)
      → InScope b law d n w
      → Refines
          (InScope b law d n)
          law.staged
          (ok (spec_remove_entries pk_ops is (law.staged w) pk item))
          (remove_entries b pk_ops is w pk item)
  unfolding remove_entries spec_remove_entries
  remove_entries-Refines [] w item h = done w refl h
  remove_entries-Refines (i ∷ is) w item h =
      Refines-bind _ (λ (ct : Contents). ok (spec_remove_entries pk_ops is ct pk item))
        (remove_entry-Refines b law pk_ops d n i w pk h item)
        λ w' h'. remove_entries-Refines is w' item h'

-- ===== src/Collection/Consistent/Methods.antt =====
-- The methods of a collection keep its indexes consistent with its records.
use collette.Prelude.{◌≡◌, refl, sym, ap, ◌∙◌, Option, All, inl, inr, Ordering}
use mathlib.Core.Path.{subst}
use collette.Bytes.{Bytes}
use collette.Outcome.{Outcome, Error, ok, ok_injective}
use collette.Key
use collette.Store.{MultiStore, IsLawful}
use collette.Collection
use collette.Collection.{Collection, main_store, insert, update, save}
use collette.Collection.Spec.{
  spec_find, spec_write, spec_insert, spec_update, spec_update_found, spec_save, spec_remove,
  spec_remove_found,
}
use collette.Collection.Refines.{Refines, done, failed, backend_failed, panicked}
use collette.Collection.Refinement.Methods.{
  insert-Refines, update-Refines, save-Refines, remove-Refines,
}
use collette.Collection.Consistent.{Distinct, TestsKeys, IsConsistent}
use collette.Collection.Consistent.Steps.{bound}
use collette.Collection.Consistent.Writes.{
  write-IsConsistent, found-OldOk, insert_found-IsConsistent, update_found-IsConsistent,
  removed-IsConsistent, decoded,
}

Refines-ok :
    {A B : Type 0} {P : A → Type 0} {show : A → B} {s : Outcome Error B} {m : Outcome Error A}
    {a : A}
    → Refines P show s m
    → m ≡ ok a
    → ok (show a) ≡ s
Refines-ok {show} (done a' e p) q = ap (λ x. ok (show x)) (sym (ok_injective q)) ∙ sym e
Refines-ok (failed e h) q = cc
Refines-ok (backend_failed t) q = cc
Refines-ok panicked q = cc

module _ {R PK : Type 0} (c : Collection R PK) {cmp : PK → PK → Ordering} {ValidKey : PK → Type 0}
    (keys : Key.IsLawful c.pk_ops cmp ValidKey) (distinct : Distinct c.indexes)
    (tests : All TestsKeys c.indexes)
    (codec : (r : R) (bytes : Bytes)
      → c.item.to_bytes r ≡ ok bytes
      → c.item.from_bytes bytes ≡ ok r) where
  module _ (b : MultiStore) (law : IsLawful b) (d d' : b.Db)
      (consistent : IsConsistent c ValidKey (law.stored d c.name)) where
    -- For lawful primary keys, different index names, an exact test of physical keys and a codec
    -- that round-trips: over any backend that keeps its contract, after a successful insert of a
    -- record with a valid key, every record is stored under its key and every index holds exactly
    -- one entry for each record, if that held before.
    pub insert-IsConsistent :
        (value : R)
        → ValidKey (c.item.key value)
        → insert b c d value ≡ ok d'
        → IsConsistent c ValidKey (law.stored d' c.name)
    unfolding spec_insert
    insert-IsConsistent value v e =
        insert_found-IsConsistent c keys distinct tests codec (law.stored d c.name) _ value _
          consistent v refl (Refines-ok (insert-Refines b law c d value) e)

    -- For lawful primary keys, different index names, an exact test of physical keys and a codec
    -- that round-trips: over any backend that keeps its contract, after a successful update with a
    -- record with a valid key, every record is stored under its key and every index holds exactly
    -- one entry for each record, if that held before.
    pub update-IsConsistent :
        (value : R)
        → ValidKey (c.item.key value)
        → update b c d value ≡ ok d'
        → IsConsistent c ValidKey (law.stored d' c.name)
    unfolding spec_update
    update-IsConsistent value v e =
        let ct = law.stored d c.name in
        let (found, e2, e1) =
          bound (spec_update_found c ct value) _ (Refines-ok (update-Refines b law c d value) e) in
        update_found-IsConsistent c keys distinct tests codec ct _ value found consistent v
          (found-OldOk c keys distinct tests codec ct value found consistent v (sym e1)) (sym e2)

    -- For lawful primary keys, different index names, an exact test of physical keys and a codec
    -- that round-trips: over any backend that keeps its contract, after a successful save of a
    -- record with a valid key, every record is stored under its key and every index holds exactly
    -- one entry for each record, if that held before.
    pub save-IsConsistent :
        (value : R)
        → ValidKey (c.item.key value)
        → save b c d value ≡ ok d'
        → IsConsistent c ValidKey (law.stored d' c.name)
    unfolding spec_save
    save-IsConsistent value v e =
        let ct = law.stored d c.name in
        let (found, e2, e1) =
          bound (λ found. spec_write c ct found value) _
            (Refines-ok (save-Refines b law c d value) e) in
        write-IsConsistent c keys distinct tests codec ct _ found value consistent v
          (found-OldOk c keys distinct tests codec ct value found consistent v (sym e1)) (sym e2)

    removed_found :
        (pk : PK) (found : Option R)
        → ok found ≡ spec_find c (law.stored d c.name) pk
        → IsConsistent c ValidKey (spec_remove_found c (law.stored d c.name) pk found)
    unfolding spec_find spec_remove_found
    removed_found pk found e =
        elim (decoded c keys distinct tests codec (law.stored d c.name) pk _ found refl e)
          as (λ _. IsConsistent c ValidKey (spec_remove_found c (law.stored d c.name) pk found)) [
            | inl (q, h) ↦ rw q consistent
            | inr (r, q, h) ↦ rw q (
                removed-IsConsistent c keys distinct tests codec (law.stored d c.name) pk r
                  consistent h)
          ]

    -- For lawful primary keys, different index names, an exact test of physical keys and a codec
    -- that round-trips: over any backend that keeps its contract, after a successful remove, every
    -- record is stored under its key and every index holds exactly one entry for each record, if
    -- that held before.
    pub remove-IsConsistent :
        (pk : PK)
        → Collection.remove b c d pk ≡ ok d'
        → IsConsistent c ValidKey (law.stored d' c.name)
    unfolding spec_remove
    remove-IsConsistent pk e =
        let ct = law.stored d c.name in
        let (found, e2, e1) =
          bound (λ found. ok (spec_remove_found c ct pk found)) _
            (Refines-ok (remove-Refines b law c d pk) e) in
        subst (IsConsistent c ValidKey) (ok_injective e2) (removed_found pk found (sym e1))

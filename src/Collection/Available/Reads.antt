-- ===== src/Collection/Available/Reads.antt =====
-- collection.rs: what a look-up over an available backend returns after a call that writes.
use collette.Prelude.{◌≡◌, ◌≢◌, refl, sym, ap, ◌∙◌, none, some, Ordering}
use mathlib.Core.Path.{subst}
use collette.Bytes.{Bytes}
use collette.Outcome.{Outcome, Error, ok, err, panic, ok_injective}
use collette.Key
use collette.Store.{MultiStore, IsLawful, Contents}
use collette.Store.Put.{put_self, put_ne}
use collette.Store.Available.{Available}
use collette.Collection
use collette.Collection.{Collection, main_store, save, get}
use collette.Collection.Spec.{
  spec_find, spec_decode, spec_save, spec_write, spec_remove, spec_remove_found,
}
use collette.Collection.Runs.{Runs, returns, fails, shown_as}
use collette.Collection.Consistent.{Distinct}
use collette.Collection.Consistent.Steps.{bound}
use collette.Collection.Consistent.Records.{encode_injective, not_main, write-main, remove-main}
use collette.Collection.Available.Methods.{
  IsReady, save-Runs, remove-Runs, shown-save, shown-remove, shown-get,
}

shown_as-same : {A : Type 0} (m : Outcome Error A) → shown_as (λ a. a) m ≡ m
shown_as-same (ok a) = refl
shown_as-same (err e) = refl
shown_as-same panic = refl

Runs-returned :
    {A : Type 0} {P : A → Type 0} {m : Outcome Error A} {a : A} → Runs P m → m ≡ ok a → P a
Runs-returned {P} (returns a p) e = subst P (ok_injective e) p
Runs-returned (fails t q) e = absurd (cc)

module _ (b : MultiStore) (law : IsLawful b) (av : Available b) {R PK : Type 0}
    (c : Collection R PK) {cmp : PK → PK → Ordering} {ValidKey : PK → Type 0}
    (keys : Key.IsLawful c.pk_ops cmp ValidKey) (distinct : Distinct c.indexes)
    (to_bytes_returns : (r : R) → c.item.to_bytes r ≢ panic)
    (from_bytes_returns : (bytes : Bytes) → c.item.from_bytes bytes ≢ panic) (db db' : b.Db)
    (prepared : IsReady b av c db) where
  get-specified :
      (d : b.Db) (pk : PK) → IsReady b av c d → get b c d pk ≡ spec_find c (law.stored d c.name) pk
  get-specified d pk p =
      sym (shown_as-same (get b c d pk))
      ∙ shown-get b av c to_bytes_returns from_bytes_returns d p law pk

  -- The look-up of a key whose entry in the primary store is the same.
  same_entry :
      (pk : PK)
      → IsReady b av c db'
      → law.stored db' c.name main_store (c.pk_ops.encode pk)
        ≡ law.stored db c.name main_store (c.pk_ops.encode pk)
      → get b c db' pk ≡ get b c db pk
  unfolding spec_find
  same_entry pk p e =
      get-specified db' pk p ∙ ap (spec_decode c) e ∙ sym (get-specified db pk prepared)

  other_key :
      (k pk : PK) → ValidKey k → ValidKey pk → pk ≢ k → c.pk_ops.encode k ≢ c.pk_ops.encode pk
  other_key k pk vk v n e = n (sym (encode_injective keys k pk vk v e))

  -- For lawful primary keys and different index names, over a backend that is available and keeps
  -- its contract, in a ready collection, which has its stores, whose codec does not panic and
  -- round-trips: after a successful save of a record with a valid key, get returns that record
  -- under its key, and under every other valid key what it returned before.
  pub save-get :
      ((r : R) (bytes : Bytes) → c.item.to_bytes r ≡ ok bytes → c.item.from_bytes bytes ≡ ok r)
      → (value : R) → ValidKey (c.item.key value)
      → save b c db value ≡ ok db'
      → (get b c db' (c.item.key value) ≡ ok (some value))
        × ((pk : PK) → ValidKey pk → pk ≢ c.item.key value → get b c db' pk ≡ get b c db pk)
  unfolding spec_save spec_find spec_decode
  save-get codec value v e =
      let ct = law.stored db c.name in
      let p =
        Runs-returned (save-Runs b av c to_bytes_returns from_bytes_returns db prepared value) e in
      let shown =
        ap (shown_as (λ d. law.stored d c.name)) (sym e)
        ∙ shown-save b av c to_bytes_returns from_bytes_returns db prepared law value in
      let (old, e2, e1) = bound (λ old. spec_write c ct old value) _ shown in
      let (bytes, b, main) = write-main c ct _ old value (not_main c.indexes distinct) (sym e2) in
      (
        get-specified db' (c.item.key value) p
            ∙ ap (spec_decode c) (
                ap (λ m. m (c.pk_ops.encode (c.item.key value))) main
                ∙ put_self (ct main_store) _ _)
            ∙ rw (codec value bytes b) refl,
        λ pk w n. same_entry pk p (
            ap (λ m. m (c.pk_ops.encode pk)) main
            ∙ put_ne (ct main_store) _ _ _ (other_key (c.item.key value) pk v w n)),
      )

  -- For lawful primary keys and different index names, over a backend that is available and keeps
  -- its contract, in a ready collection, which has its stores, whose codec does not panic: after a
  -- successful remove of a valid key, get returns no record under it, and under every other valid
  -- key what it returned before.
  pub remove-get :
      (pk : PK)
      → ValidKey pk
      → Collection.remove b c db pk ≡ ok db'
      → (get b c db' pk ≡ ok none) × ((k : PK) → ValidKey k → k ≢ pk → get b c db' k ≡ get b c db k)
  unfolding spec_remove spec_find spec_decode
  remove-get pk v e =
      let ct = law.stored db c.name in
      let p =
        Runs-returned (remove-Runs b av c to_bytes_returns from_bytes_returns db prepared pk) e in
      let shown =
        ap (shown_as (λ d. law.stored d c.name)) (sym e)
        ∙ shown-remove b av c to_bytes_returns from_bytes_returns db prepared law pk in
      let (found, e2, e1) = bound (λ found. ok (spec_remove_found c ct pk found)) _ shown in
      let left = ok_injective (sym e2) in
      let (gone, kept) = remove-main c ct pk found (not_main c.indexes distinct) (sym e1) in
      (
        get-specified db' pk p
            ∙ ap (spec_decode c)
                (ap (λ (x : Contents). x main_store (c.pk_ops.encode pk)) left ∙ gone),
        λ k w n. same_entry k p (
            ap (λ (x : Contents). x main_store (c.pk_ops.encode k)) left
            ∙ kept (c.pk_ops.encode k) (other_key pk k v w n)),
      )

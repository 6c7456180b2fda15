-- ===== src/Collection/Consistent/Records.antt =====
-- What the specified methods of a collection do to the primary store.
use collette.Prelude.{
  ◌≡◌, ◌≢◌, refl, sym, ap, ◌∙◌, Bool-cases, inl, inr, Option, none, some, List, [], ◌∷◌, All,
  Option-cases, ◌++◌, Ordering,
}
use collette.Bytes.{Bytes}
use collette.Outcome.{Error, ok, map_err, map_err-eq_ok, ok_injective}
use collette.Key
use collette.Key.{Key}
use collette.Store.{Content, Contents, put}
use collette.Store.Put.{put_self, put_ne}
use collette.Index.{Index, entry_key, store_key_of}
use collette.Collection.{Collection, main_store}
use collette.Collection.Spec.{
  spec_write_entry, spec_update_index, spec_update_indexes, spec_remove_entry, spec_remove_entries,
  spec_write, spec_decode, spec_find, spec_remove_found,
}
use collette.Collection.Consistent.{Distinct}
use collette.Collection.Consistent.IndexStep.{some_injective}
use collette.Collection.Consistent.Steps.{bound}

-- Different valid keys have different encodings.
pub encode_injective :
    {PK : Type 0} {k : Key PK} {cmp : PK → PK → Ordering} {ValidKey : PK → Type 0}
    → Key.IsLawful k cmp ValidKey
    → (a b : PK) → ValidKey a
    → ValidKey b
    → k.encode a ≡ k.encode b
    → a ≡ b
encode_injective {PK} {k} keys a b va vb e =
    ap (λ (x : PK × Bytes). x.0)
      (some_injective (
        sym (keys.round_trip a [] va)
        ∙ ap (λ (x : Bytes). k.decode_part (x ++ [])) e
        ∙ keys.round_trip b [] vb))

-- No index store is the primary store.
pub not_main :
    {R PK : Type 0} (is : List (Index R PK)) → Distinct is → All (λ i. i.name ≢ main_store) is
not_main [] u = tt
not_main (i ∷ is) (n, a, u) = (n, not_main is u)

module _ {R PK : Type 0} (pk_ops : Key PK) (pk : PK) where
  write_entry-main :
      (i : Index R PK) (ct ct' : Contents) (new : R) (s : Content)
      → i.name ≢ main_store
      → ok ct' ≡ spec_write_entry pk_ops i ct pk new s
      → ct' main_store ≡ ct main_store
  unfolding spec_write_entry
  write_entry-main i ct ct' new s n e = elim (Option-cases (s (entry_key i new pk))) [
    | inl h ↦
        let q = rw (h, spec_write_entry) at e in
        ap (λ (x : Contents). x main_store) (ok_injective q) ∙ put_ne ct i.name _ main_store n
    | inr (x, h) ↦ let q = rw (h, spec_write_entry) at e in absurd (cc)
  ]

  update_index-main :
      (i : Index R PK) (ct ct' : Contents) (old : Option R) (new : R)
      → i.name ≢ main_store
      → ok ct' ≡ spec_update_index pk_ops i ct pk old new
      → ct' main_store ≡ ct main_store
  unfolding spec_update_index
  update_index-main i ct ct' none new n e = write_entry-main i ct ct' new _ n e
  update_index-main i ct ct' (some old) new n e =
      elim (Bool-cases (i.store_ops.beq (store_key_of i old pk) (store_key_of i new pk))) [
        | inl b ↦
            let q = rw (b, spec_update_index) at e in
            ap (λ (x : Contents). x main_store) (ok_injective q)
        | inr b ↦ let q = rw (b, spec_update_index) at e in write_entry-main i ct ct' new _ n q
      ]

  update_indexes-main :
      (is : List (Index R PK)) (ct ct' : Contents) (old : Option R) (new : R)
      → All (λ i. i.name ≢ main_store) is
      → ok ct' ≡ spec_update_indexes pk_ops is ct pk old new
      → ct' main_store ≡ ct main_store
  unfolding spec_update_indexes
  update_indexes-main [] ct ct' old new n e = ap (λ (x : Contents). x main_store) (ok_injective e)
  update_indexes-main (i ∷ is) ct ct' old new n e =
      let (ct1, e2, e1) = bound (λ x. spec_update_indexes pk_ops is x pk old new) _ e in
      update_indexes-main is ct1 ct' old new n.1 (sym e2)
      ∙ update_index-main i ct ct1 old new n.0 (sym e1)

  remove_entries-main :
      (is : List (Index R PK)) (ct : Contents) (item : R)
      → All (λ i. i.name ≢ main_store) is
      → spec_remove_entries pk_ops is ct pk item main_store ≡ ct main_store
  unfolding spec_remove_entries spec_remove_entry
  remove_entries-main [] ct item n = refl
  remove_entries-main (i ∷ is) ct item n =
      remove_entries-main is _ item n.1 ∙ put_ne ct i.name _ main_store n.0

-- A write puts the bytes of the record under its key, and leaves the rest of the primary store.
pub write-main :
    {R PK : Type 0} (c : Collection R PK) (ct ct' : Contents) (old : Option R) (value : R)
    → All (λ i. i.name ≢ main_store) c.indexes
    → ok ct' ≡ spec_write c ct old value
    → (bytes : Bytes) × (c.item.to_bytes value ≡ ok bytes)
      × (ct' main_store ≡ put (ct main_store) (c.pk_ops.encode (c.item.key value)) (some bytes))
unfolding spec_write
write-main c ct ct' old value n e =
    let (bytes, e2, e1) = bound _ (map_err Error.codec (c.item.to_bytes value)) e in
    (
      bytes,
      map_err-eq_ok Error.codec (c.item.to_bytes value) e1,
      update_indexes-main c.pk_ops (c.item.key value) c.indexes _ ct' old value n (sym e2)
          ∙ put_self ct main_store _,
    )

-- Only where there are no bytes is no record found.
found_none :
    {R PK : Type 0} (c : Collection R PK) (o : Option Bytes) → ok none ≡ spec_decode c o → o ≡ none
unfolding spec_decode
found_none c none e = refl
found_none c (some bytes) e =
    let (r, q, d) = bound (λ r. ok (some r)) (map_err Error.codec (c.item.from_bytes bytes)) e in
    absurd (cc)

-- A removal takes the entry of the key, and leaves the rest of the primary store.
pub remove-main :
    {R PK : Type 0} (c : Collection R PK) (ct : Contents) (pk : PK) (found : Option R)
    → All (λ i. i.name ≢ main_store) c.indexes
    → ok found ≡ spec_find c ct pk
    → (spec_remove_found c ct pk found main_store (c.pk_ops.encode pk) ≡ none)
      × ((kb : Bytes)
          → c.pk_ops.encode pk ≢ kb
          → spec_remove_found c ct pk found main_store kb ≡ ct main_store kb)
unfolding spec_find spec_remove_found
remove-main c ct pk none n e = (found_none c (ct main_store (c.pk_ops.encode pk)) e, λ kb m. refl)
remove-main c ct pk (some r) n e =
    let main =
      remove_entries-main c.pk_ops (c.item.key r) c.indexes _ r n ∙ put_self ct main_store _ in
    (
      ap (λ m. m (c.pk_ops.encode pk)) main ∙ put_self (ct main_store) _ none,
      λ kb m. ap (λ f. f kb) main ∙ put_ne (ct main_store) _ none kb m,
    )

-- ===== src/Collection/Registered.antt =====
-- `CollectionBuilder::with_index`, called once for each index of a collection.
use collette.Prelude.{◌≡◌, ◌≢◌, ◌↔◌, refl, sym, false, Bool-cases, inl, inr, List, [], ◌∷◌, All}
use collette.Bytes.{◌=ᵇ◌}
use collette.Bytes.Order.{=ᵇ_iff}
use collette.Outcome.{Outcome, Error, ok, ◌>>=◌}
use collette.Key.{Key}
use collette.Item.{Item}
use collette.Store.{Name}
use collette.Store.Put.{=ᵇ_ne}
use collette.Index.{Index, has_index}
use collette.Collection.{Collection, main_store, collection, with_index}
use collette.Collection.Consistent.{Distinct}

module _ {R PK : Type 0} where
  unfoldable pub with_indexes :
      Collection R PK → List (Index R PK) → Outcome Error (Collection R PK)
  with_indexes c [] = ok c
  with_indexes c (i ∷ is) = do c' ← with_index c i; with_indexes c' is

  -- The indexes of the list on top of others, the last one first.
  unfoldable pub stacked : List (Index R PK) → List (Index R PK) → List (Index R PK)
  stacked [] out = out
  stacked (i ∷ is) out = stacked is (i ∷ out)

  has_index-absent :
      (is : List (Index R PK)) (n : Name) → has_index is n ≡ false → All (λ j. n ≢ j.name) is
  unfolding has_index
  has_index-absent [] n h = tt
  has_index-absent (j ∷ is) n h =
      elim (Bool-cases (j.name =ᵇ n)) as (λ _. All (λ j. n ≢ j.name) (j ∷ is)) [
        | inl t ↦ let h' = rw (t, has_index) at h in absurd (cc)
        | inr f ↦
            let h' = rw (f, has_index) at h in
            ((λ e. let q = (=ᵇ_iff j.name n).1 (sym e) in absurd (cc)), has_index-absent is n h')
      ]

  absent-has_index :
      (is : List (Index R PK)) (n : Name) → All (λ j. n ≢ j.name) is → has_index is n ≡ false
  unfolding has_index
  absent-has_index [] n h = refl
  absent-has_index (j ∷ is) n (h, hs) =
      rw (=ᵇ_ne j.name n (λ e. h (sym e)), absent-has_index is n hs) refl

  stacked-Distinct : (is out : List (Index R PK)) → Distinct (stacked is out) → Distinct out
  unfolding stacked
  stacked-Distinct [] out h = h
  stacked-Distinct (i ∷ is) out h = (stacked-Distinct is (i ∷ out) h).2

  -- From a collection whose indexes are different.
  registered :
      (c : Collection R PK) (is : List (Index R PK))
      → Distinct c.indexes
      → All (λ i. i.name ≢ main_store) is
      → (with_indexes c is ≡ ok (record c { indexes = stacked is c.indexes }))
        ↔ Distinct (stacked is c.indexes)
  unfolding with_indexes stacked with_index
  registered c [] u n = (λ e. u, λ h. refl)
  registered c (i ∷ is) u (n, ns) =
      elim (Bool-cases (has_index c.indexes i.name))
        as (λ _.
          (with_indexes c (i ∷ is) ≡ ok (record c { indexes = stacked (i ∷ is) c.indexes }))
          ↔ Distinct (stacked (i ∷ is) c.indexes)) [
            | inl t ↦ (
              λ e. let e' = rw (t, with_indexes, with_index) at e in absurd (cc),
              λ h.
                  let f =
                    absent-has_index c.indexes i.name (stacked-Distinct is (i ∷ c.indexes) h).1 in
                  absurd (cc),
            )
            | inr f ↦
                let rest =
                  registered (record c { indexes = i ∷ c.indexes }) is
                    (n, has_index-absent c.indexes i.name f, u) ns in
                rw (f, with_indexes, with_index) rest
          ]

  -- A collection to which indexes are added one after the other, none of the name of the primary
  -- store, is returned with all of them, the last one first, exactly if their names are pairwise
  -- different.
  pub collection-with_indexes :
      (name : Name) (item : Item R PK) (pk_ops : Key PK) (is : List (Index R PK))
      → All (λ i. i.name ≢ main_store) is
      → (with_indexes (collection name item pk_ops) is
          ≡ ok (record { name = name; item = item; pk_ops = pk_ops; indexes = stacked is [] }))
        ↔ Distinct (stacked is [])
  unfolding collection
  collection-with_indexes name item pk_ops is n = registered (collection name item pk_ops) is tt n

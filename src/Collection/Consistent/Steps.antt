-- ===== src/Collection/Consistent/Steps.antt =====
-- All index stores, when a record is written or removed.
use collette.Prelude.{
  ◌≡◌, ◌≢◌, refl, sym, ap, ◌∙◌, fun_ext, Option, none, some, inl, inr, Bool-cases, Option-cases,
  List, [], ◌∷◌, All,
}
use mathlib.Core.Path.{subst}
use collette.Bytes.{Bytes, ◌=ᵇ◌}
use collette.Outcome.{Outcome, ok, err, ◌>>=◌}
use collette.Key.{Key}
use collette.Item.{Item}
use collette.Store.{Name, Content, Contents, put}
use collette.Store.Put.{put_self, put_ne}
use collette.Index.{Index, entry_key, store_key_of}
use collette.Collection.Spec.{
  spec_write_entry, spec_update_index, spec_update_indexes, spec_remove_entry, spec_remove_entries,
}
use collette.Collection.Consistent.{Holds, IndexOk, Distinct, TestsKeys}
use collette.Collection.Consistent.IndexStep.{remove-IndexOk, write-IndexOk, replace-IndexOk}

-- The parts of a chain that succeeds.
pub bound :
    {E A B : Type 0} {b : B} (f : A → Outcome E B) (m : Outcome E A)
    → ok b ≡ (m >>= f)
    → (a : A) × (f a ≡ ok b) × (m ≡ ok a)
bound f (ok a) e = (a, sym e, refl)
bound f (err x) e = cc
bound f Outcome.panic e = cc

pub All-zip :
    {A : Type 1} {P Q S : A → Type 0} (xs : List A)
    → ((x : A) → P x → Q x → S x)
    → All P xs
    → All Q xs
    → All S xs
All-zip [] f p q = tt
All-zip (x ∷ xs) f p q = (f x p.0 q.0, All-zip xs f p.1 q.1)

pub put-put : {V : Type 0} (f : Bytes → V) (k : Bytes) (v w : V) → put (put f k v) k w ≡ put f k w
put-put f k v w = fun_ext λ j.
    elim (Bool-cases (k =ᵇ j)) as (λ _. put (put f k v) k w j ≡ put f k w j) [
      | inl e ↦ rw e
      | inr e ↦ rw e
    ]

-- Only the store `n` is changed.
abbrev pub OnlyAt : Name → Contents → Contents → Type 0
OnlyAt n ct ct' = (x : Name) → n ≢ x → ct' x ≡ ct x

module _ {R PK : Type 0} (item : Item R PK) (pk_ops : Key PK) (m : Content) where
  module _ (new : R) where
    abbrev kb : Bytes
    kb = pk_ops.encode (item.key new)

    -- What is known of the old record.
    abbrev pub OldOk : Option R → Type 0
    OldOk none = m kb ≡ none
    OldOk (some old) = Holds item m kb old × (item.key old ≡ item.key new)

  module _ (new : R) (bytes : Bytes) (d : item.from_bytes bytes ≡ ok new) where
    write_entry-ok :
        (i : Index R PK) (ct ct' : Contents) (s : Content)
        → ok ct' ≡ spec_write_entry pk_ops i ct (item.key new) new s
        → (s (entry_key i new (item.key new)) ≡ none)
          × (ct' ≡ put ct i.name (put s (entry_key i new (item.key new)) (some (kb new))))
    unfolding spec_write_entry
    write_entry-ok i ct ct' s e = elim (Option-cases (s (entry_key i new (item.key new)))) [
      | inl h ↦ let q = rw (h, spec_write_entry) at e in (h, cc)
      | inr (x, h) ↦ let q = rw (h, spec_write_entry) at e in absurd cc
    ]

    written :
        (i : Index R PK) (m0 : Content) (ct ct' : Contents) (s : Content)
        → IndexOk item i m0 s
        → m0 (kb new) ≡ none
        → ok ct' ≡ spec_write_entry pk_ops i ct (item.key new) new s
        → IndexOk item i (put m0 (kb new) (some bytes)) (ct' i.name) × OnlyAt i.name ct ct'
    written i m0 ct ct' s k free e =
        let (fresh, q) = write_entry-ok i ct ct' s e in
        (
          subst (IndexOk item i (put m0 (kb new) (some bytes)))
              (sym (ap (λ (x : Contents). x i.name) q ∙ put_self ct i.name _))
              (write-IndexOk item i m0 s (kb new) k new bytes d free fresh),
          λ x n. ap (λ (y : Contents). y x) q ∙ put_ne ct i.name _ x n,
        )

    update_index-IndexOk :
        (i : Index R PK) (ct ct' : Contents) (old : Option R)
        → TestsKeys i
        → IndexOk item i m (ct i.name)
        → OldOk new old
        → ok ct' ≡ spec_update_index pk_ops i ct (item.key new) old new
        → IndexOk item i (put m (kb new) (some bytes)) (ct' i.name) × OnlyAt i.name ct ct'
    unfolding spec_update_index
    update_index-IndexOk i ct ct' none t k free e = written i m ct ct' (ct i.name) k free e
    update_index-IndexOk i ct ct' (some old) t k (h, q) e =
        elim (Bool-cases (
          i.store_ops.beq (store_key_of i old (item.key new))
            (store_key_of i new (item.key new)))) [
              | inl b ↦
                  let e' = rw (b, spec_update_index) at e in
                  let c : ct' ≡ ct = cc in
                  (
                    subst (IndexOk item i (put m (kb new) (some bytes)))
                        (sym (ap (λ (x : Contents). x i.name) c))
                        (replace-IndexOk item i m (ct i.name) (kb new) k new bytes d old h
                          (ap (λ p. entry_key i old p) q ∙ ap i.store_ops.encode (t _ _ b))),
                    λ x n. ap (λ (y : Contents). y x) c,
                  )
              | inr b ↦
                  let e' = rw (b, spec_update_index) at e in
                  let k' =
                    subst (λ x. IndexOk item i (put m (kb new) none) (put (ct i.name) x none))
                      (ap (λ p. entry_key i old p) q)
                      (remove-IndexOk item i m (ct i.name) (kb new) k old h) in
                  let (w, o) =
                    written i (put m (kb new) none) ct ct' _ k' (put_self m (kb new) none) e' in
                  (
                    subst (λ x. IndexOk item i x (ct' i.name))
                        (put-put m (kb new) none (some bytes)) w,
                    o,
                  )
            ]

    -- Every index, when the indexes are updated one after the other.
    pub update_indexes-IndexOk :
        (is : List (Index R PK)) (ct ct' : Contents) (old : Option R)
        → Distinct is
        → All TestsKeys is
        → All (λ i. IndexOk item i m (ct i.name)) is
        → OldOk new old
        → ok ct' ≡ spec_update_indexes pk_ops is ct (item.key new) old new
        → All (λ i. IndexOk item i (put m (kb new) (some bytes)) (ct' i.name)) is
          × ((x : Name) → All (λ i. i.name ≢ x) is → ct' x ≡ ct x)
    unfolding spec_update_indexes
    update_indexes-IndexOk [] ct ct' old u t k o e =
        let c : ct' ≡ ct = cc in (tt, λ x n. ap (λ (y : Contents). y x) c)
    update_indexes-IndexOk (i ∷ is) ct ct' old (main, u, us) (t, ts) (k, ks) o e =
        let (ct1, e2, e1) =
          bound (λ c. spec_update_indexes pk_ops is c (item.key new) old new) _ e in
        let (k1, f1) = update_index-IndexOk i ct ct1 old t k o (sym e1) in
        let ks1 =
          All-zip {S = λ j. IndexOk item j m (ct1 j.name)} is
            (λ j n kj. subst (IndexOk item j m) (sym (f1 j.name n)) kj) u ks in
        let (ks2, f2) = update_indexes-IndexOk is ct1 ct' old us ts ks1 o (sym e2) in
        (
          (
            subst (IndexOk item i (put m (kb new) (some bytes)))
                (sym (f2 i.name (All-zip {S = λ j. j.name ≢ i.name} is (λ j n _ p. n (sym p)) u u)))
                k1,
            ks2,
          ),
          λ x n. f2 x n.1 ∙ f1 x n.0,
        )

  module _ (old : R) (held : Bytes) (h : Holds item m held old) where
    -- Every index, when the entries of a record are removed.
    pub remove_entries-IndexOk :
        (is : List (Index R PK)) (ct : Contents)
        → Distinct is
        → All (λ i. IndexOk item i m (ct i.name)) is
        → All
            (λ i.
              IndexOk item i
                (put m held none)
                (spec_remove_entries pk_ops is ct (item.key old) old i.name))
            is
          × ((x : Name)
              → All (λ i. i.name ≢ x) is
              → spec_remove_entries pk_ops is ct (item.key old) old x ≡ ct x)
    unfolding spec_remove_entries spec_remove_entry
    remove_entries-IndexOk [] ct u k = (tt, λ x n. refl)
    remove_entries-IndexOk (i ∷ is) ct (main, u, us) (k, ks) =
        let ct1 = spec_remove_entry pk_ops i ct (item.key old) old in
        let k1 = remove-IndexOk item i m (ct i.name) held k old h in
        let f1 : OnlyAt i.name ct ct1 = λ x n. put_ne ct i.name _ x n in
        let ks1 =
          All-zip {S = λ j. IndexOk item j m (ct1 j.name)} is
            (λ j n kj. subst (IndexOk item j m) (sym (f1 j.name n)) kj) u ks in
        let (ks2, f2) = remove_entries-IndexOk is ct1 us ks1 in
        (
          (
            subst (IndexOk item i (put m held none))
                (sym (
                  f2 i.name (All-zip {S = λ j. j.name ≢ i.name} is (λ j n _ p. n (sym p)) u u)
                  ∙ put_self ct i.name _))
                k1,
            ks2,
          ),
          λ x n. f2 x n.1 ∙ f1 x n.0,
        )

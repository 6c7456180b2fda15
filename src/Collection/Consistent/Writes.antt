-- ===== src/Collection/Consistent/Writes.antt =====
-- What the methods of a collection promise keeps its indexes consistent with its records.
use collette.Prelude.{◌≡◌, refl, sym, ap, ◌∙◌, Option, none, some, All, inl, inr, ◌⊎◌, Ordering}
use mathlib.Core.Path.{subst}
use collette.Bytes.{Bytes}
use collette.Outcome.{Error, ok, map_err, map_err-eq_ok, ok_injective}
use collette.Key
use collette.Store.{Content, Contents, put}
use collette.Store.Put.{put_self, put_ne}
use collette.Collection.{Collection, main_store}
use collette.Collection.Spec.{
  spec_decode, spec_find, spec_write, spec_insert_found, spec_update_found, spec_remove_found,
}
use collette.Collection.Consistent.{Holds, IndexOk, Keyed, Distinct, TestsKeys, IsConsistent}
use collette.Collection.Consistent.IndexStep.{same_or_not, some_injective, none_ne_some, put_at}
use collette.Collection.Consistent.Records.{encode_injective, not_main}
use collette.Collection.Consistent.Steps.{
  bound, All-zip, OldOk, update_indexes-IndexOk, remove_entries-IndexOk,
}

module _ {R PK : Type 0} (c : Collection R PK) {cmp : PK → PK → Ordering} {ValidKey : PK → Type 0}
    (keys : Key.IsLawful c.pk_ops cmp ValidKey) (distinct : Distinct c.indexes)
    (tests : All TestsKeys c.indexes)
    (codec : (r : R) (bytes : Bytes)
      → c.item.to_bytes r ≡ ok bytes
      → c.item.from_bytes bytes ≡ ok r) where
  abbrev records : Contents → Content
  records ct = ct main_store

  Keyed-put :
      (m : Content) (r : R) (bytes : Bytes)
      → Keyed c.item c.pk_ops ValidKey m
      → ValidKey (c.item.key r)
      → c.item.from_bytes bytes ≡ ok r
      → Keyed c.item c.pk_ops ValidKey (put m (c.pk_ops.encode (c.item.key r)) (some bytes))
  Keyed-put m r bytes k v d kb bs e = elim (same_or_not (c.pk_ops.encode (c.item.key r)) kb) [
    | inl q ↦
        let b : bytes ≡ bs = some_injective (sym (put_at m (some bytes) q) ∙ e) in
        (r, ap c.item.from_bytes (sym b) ∙ d, q, v)
    | inr n ↦ k kb bs (sym (put_ne m _ (some bytes) kb n) ∙ e)
  ]

  Keyed-remove :
      (m : Content) (key : Bytes)
      → Keyed c.item c.pk_ops ValidKey m
      → Keyed c.item c.pk_ops ValidKey (put m key none)
  Keyed-remove m key k kb bs e = elim (same_or_not key kb) [
    | inl q ↦ absurd (none_ne_some (sym (put_at m none q) ∙ e))
    | inr n ↦ k kb bs (sym (put_ne m key none kb n) ∙ e)
  ]

  -- The stores of the indexes are not touched by a change of the records.
  elsewhere :
      (ct : Contents) (m : Content)
      → IsConsistent c ValidKey ct
      → All (λ i. IndexOk c.item i (records ct) (put ct main_store m i.name)) c.indexes
  elsewhere ct m k =
      All-zip {S = λ i. IndexOk c.item i (records ct) (put ct main_store m i.name)} c.indexes
        (λ i n o.
          subst (IndexOk c.item i (records ct))
            (sym (put_ne ct main_store m i.name (λ p. n (sym p)))) o)
        (not_main c.indexes distinct) k.indexed

  pub write-IsConsistent :
      (ct ct' : Contents) (old : Option R) (value : R)
      → IsConsistent c ValidKey ct
      → ValidKey (c.item.key value)
      → OldOk c.item c.pk_ops (records ct) value old
      → ok ct' ≡ spec_write c ct old value
      → IsConsistent c ValidKey ct'
  unfolding spec_write
  write-IsConsistent ct ct' old value k v o e =
      let kb = c.pk_ops.encode (c.item.key value) in
      let (bytes, e2, e1) = bound _ (map_err Error.codec (c.item.to_bytes value)) e in
      let d = codec value bytes (map_err-eq_ok Error.codec (c.item.to_bytes value) e1) in
      let m' = put (records ct) kb (some bytes) in
      let (ks, f) =
        update_indexes-IndexOk c.item c.pk_ops (records ct) value bytes d c.indexes
          (put ct main_store m') ct' old distinct tests (elsewhere ct m' k) o (sym e2) in
      let main : m' ≡ records ct' =
        sym (f main_store (not_main c.indexes distinct) ∙ put_self ct main_store m') in
      record {
        keyed =
            subst (Keyed c.item c.pk_ops ValidKey) main
              (Keyed-put (records ct) value bytes k.keyed v d);
        indexed = subst (λ x. All (λ i. IndexOk c.item i x (ct' i.name)) c.indexes) main ks;
      }

  -- What a look-up finds.
  pub decoded :
      (ct : Contents) (pk : PK) (o : Option Bytes) (found : Option R)
      → records ct (c.pk_ops.encode pk) ≡ o
      → ok found ≡ spec_decode c o
      → ((found ≡ none) × (records ct (c.pk_ops.encode pk) ≡ none))
        ⊎ ((r : R) × (found ≡ some r) × Holds c.item (records ct) (c.pk_ops.encode pk) r)
  unfolding spec_decode
  decoded ct pk none found h e = inl (ok_injective e, h)
  decoded ct pk (some bytes) found h e =
      let (r, q, d) = bound (λ r. ok (some r)) (map_err Error.codec (c.item.from_bytes bytes)) e in
      inr (
        r,
        sym (ok_injective q),
        record {
          bytes = bytes;
          there = h;
          decodes = map_err-eq_ok Error.codec (c.item.from_bytes bytes) d;
        },
      )

  pub found-OldOk :
      (ct : Contents) (value : R) (found : Option R)
      → IsConsistent c ValidKey ct
      → ValidKey (c.item.key value)
      → ok found ≡ spec_find c ct (c.item.key value)
      → OldOk c.item c.pk_ops (records ct) value found
  unfolding spec_find
  found-OldOk ct value found k v e = elim (decoded ct (c.item.key value) _ found refl e) [
    | inl (q, h) ↦ subst (OldOk c.item c.pk_ops (records ct) value) (sym q) h
    | inr (r, q, h) ↦
        let (r', d, p, v') = k.keyed (c.pk_ops.encode (c.item.key value)) h.bytes h.there in
        let same : r' ≡ r = ok_injective (sym d ∙ h.decodes) in
        subst (OldOk c.item c.pk_ops (records ct) value) (sym q) (
          h,
          ap c.item.key (sym same)
              ∙ encode_injective keys (c.item.key r') (c.item.key value) v' v p,
        )
  ]

  pub insert_found-IsConsistent :
      (ct ct' : Contents) (value : R) (existing : Option Bytes)
      → IsConsistent c ValidKey ct
      → ValidKey (c.item.key value)
      → records ct (c.pk_ops.encode (c.item.key value)) ≡ existing
      → ok ct' ≡ spec_insert_found c ct value existing
      → IsConsistent c ValidKey ct'
  unfolding spec_insert_found
  insert_found-IsConsistent ct ct' value none k v h e = write-IsConsistent ct ct' none value k v h e
  insert_found-IsConsistent ct ct' value (some x) k v h e = absurd cc

  pub update_found-IsConsistent :
      (ct ct' : Contents) (value : R) (found : Option R)
      → IsConsistent c ValidKey ct
      → ValidKey (c.item.key value)
      → OldOk c.item c.pk_ops (records ct) value found
      → ok ct' ≡ spec_update_found c ct value found
      → IsConsistent c ValidKey ct'
  unfolding spec_update_found
  update_found-IsConsistent ct ct' value none k v h e = absurd cc
  update_found-IsConsistent ct ct' value (some old) k v h e =
      write-IsConsistent ct ct' (some old) value k v h e

  pub removed-IsConsistent :
      (ct : Contents) (pk : PK) (r : R)
      → IsConsistent c ValidKey ct
      → Holds c.item (records ct) (c.pk_ops.encode pk) r
      → IsConsistent c ValidKey (spec_remove_found c ct pk (some r))
  unfolding spec_remove_found
  removed-IsConsistent ct pk r k h =
      let kb = c.pk_ops.encode pk in
      let m' = put (records ct) kb none in
      let (ks, f) =
        remove_entries-IndexOk c.item c.pk_ops (records ct) r kb h c.indexes (put ct main_store m')
          distinct (elsewhere ct m' k) in
      let main = sym (f main_store (not_main c.indexes distinct) ∙ put_self ct main_store m') in
      record {
        keyed = subst (Keyed c.item c.pk_ops ValidKey) main (Keyed-remove (records ct) kb k.keyed);
        indexed =
            subst
              (λ x.
                All (λ i. IndexOk c.item i x (spec_remove_found c ct pk (some r) i.name)) c.indexes)
              main ks;
      }

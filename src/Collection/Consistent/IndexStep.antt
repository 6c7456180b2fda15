-- ===== src/Collection/Consistent/IndexStep.antt =====
-- One index store, when a record is written or removed.
use collette.Prelude.{◌≡◌, ◌≢◌, sym, ap, ◌∙◌, Option, none, some, inl, inr, ◌⊎◌, Bool-cases}
use mathlib.Core.Path.{subst}
use collette.Bytes.{Bytes, ◌=ᵇ◌}
use collette.Bytes.Order.{=ᵇ_iff}
use collette.Outcome.{ok, ok_injective}
use collette.Item.{Item}
use collette.Store.{Content, put}
use collette.Store.Put.{put_self, put_ne}
use collette.Index.{Index, entry_key}
use collette.Collection.Consistent.{Holds, IndexOk}

-- Two byte strings are the same, or not.
pub same_or_not : (a b : Bytes) → (a ≡ b) ⊎ (a ≢ b)
same_or_not a b = elim (Bool-cases (a =ᵇ b)) [
  | inl h ↦ inl ((=ᵇ_iff a b).0 h)
  | inr h ↦ inr (λ e. let t = (=ᵇ_iff a b).1 e in cc)
]

pub some_injective : {A : Type 0} {a b : A} → some a ≡ some b → a ≡ b
some_injective e = cc

module _ {R PK : Type 0} (item : Item R PK) (m : Content) (kb : Bytes) where
  pub Holds-unique : {r r' : R} → Holds item m kb r → Holds item m kb r' → r ≡ r'
  Holds-unique h h' =
      ok_injective
        (sym h.decodes ∙ ap item.from_bytes (some_injective (sym h.there ∙ h'.there)) ∙ h'.decodes)

  Holds-put_ne :
      (v : Option Bytes) {kb' : Bytes} {r : R}
      → kb ≢ kb'
      → Holds item (put m kb v) kb' r
      → Holds item m kb' r
  Holds-put_ne v n h = record {
    bytes = h.bytes;
    there = sym (put_ne m kb v _ n) ∙ h.there;
    decodes = h.decodes;
  }

  put_ne-Holds :
      (v : Option Bytes) {kb' : Bytes} {r : R}
      → kb ≢ kb'
      → Holds item m kb' r
      → Holds item (put m kb v) kb' r
  put_ne-Holds v n h = record {
    bytes = h.bytes;
    there = put_ne m kb v _ n ∙ h.there;
    decodes = h.decodes;
  }

  put_self-Holds :
      (bytes : Bytes) (r : R)
      → item.from_bytes bytes ≡ ok r
      → Holds item (put m kb (some bytes)) kb r
  put_self-Holds bytes r d = record {
    bytes = bytes;
    there = put_self m kb (some bytes);
    decodes = d;
  }

  put_at-Holds :
      (bytes : Bytes) (new : R) {kb' : Bytes}
      → item.from_bytes bytes ≡ ok new
      → kb ≡ kb'
      → Holds item (put m kb (some bytes)) kb' new
  put_at-Holds bytes new d e =
      subst (λ b. Holds item (put m kb (some bytes)) b new) e (put_self-Holds bytes new d)

pub none_ne_some : {A : Type 0} {a : A} → none ≢ some a
none_ne_some e = cc

pub put_at : {V : Type 0} (f : Bytes → V) {k j : Bytes} (v : V) → k ≡ j → put f k v j ≡ v
put_at f {k} v e = ap (put f k v) (sym e) ∙ put_self f k v

module _ {R PK : Type 0} (item : Item R PK) (i : Index R PK) (m s : Content) (kb : Bytes)
    (k : IndexOk item i m s) where
  abbrev ek : R → Bytes
  ek r = entry_key i r (item.key r)

  module _ (old : R) (h : Holds item m kb old) where
    removed_complete :
        (kb' : Bytes) (r : R)
        → Holds item (put m kb none) kb' r
        → put s (ek old) none (ek r) ≡ some kb'
    removed_complete kb' r h' = elim (same_or_not kb kb') [
      | inl e ↦ absurd (none_ne_some (sym (put_at m none e) ∙ h'.there))
      | inr n ↦
          let c = k.complete kb' r (Holds-put_ne item m kb none n h') in
          put_ne s (ek old) none (ek r)
            (λ e. n (some_injective (sym (k.complete kb old h) ∙ ap s e ∙ c)))
          ∙ c
    ]

    removed_sound :
        (sk kb' : Bytes)
        → put s (ek old) none sk ≡ some kb'
        → (r : R) × Holds item (put m kb none) kb' r × (ek r ≡ sk)
    removed_sound sk kb' e = elim (same_or_not (ek old) sk) [
      | inl q ↦ absurd (none_ne_some (sym (put_at s none q) ∙ e))
      | inr n ↦
          let (r, h', q) = k.sound sk kb' (sym (put_ne s (ek old) none sk n) ∙ e) in
          (
            r,
            put_ne-Holds item m kb none
                (λ p.
                  n (
                    ap ek (Holds-unique item m kb h (subst (λ b. Holds item m b r) (sym p) h'))
                    ∙ q))
                h',
            q,
          )
    ]

    -- The record at `kb` is removed, with its entry.
    pub remove-IndexOk : IndexOk item i (put m kb none) (put s (ek old) none)
    remove-IndexOk = record { complete = removed_complete; sound = removed_sound }

  module _ (new : R) (bytes : Bytes) (d : item.from_bytes bytes ≡ ok new) where
    written_complete :
        m kb ≡ none
        → s (ek new) ≡ none
        → (kb' : Bytes) (r : R) → Holds item (put m kb (some bytes)) kb' r
        → put s (ek new) (some kb) (ek r) ≡ some kb'
    written_complete free fresh kb' r h' = elim (same_or_not kb kb') [
      | inl e ↦
          let u : r ≡ new =
            Holds-unique item (put m kb (some bytes)) kb' h'
              (put_at-Holds item m kb bytes new d e) in
          ap (λ x. put s (ek new) (some kb) (ek x)) u
          ∙ put_self s (ek new) (some kb)
          ∙ ap (λ (b : Bytes). some b) e
      | inr n ↦
          let c = k.complete kb' r (Holds-put_ne item m kb (some bytes) n h') in
          put_ne s (ek new) (some kb) (ek r) (λ e. let t = sym fresh ∙ ap s e ∙ c in cc) ∙ c
    ]

    written_sound :
        m kb ≡ none
        → (sk kb' : Bytes) → put s (ek new) (some kb) sk ≡ some kb'
        → (r : R) × Holds item (put m kb (some bytes)) kb' r × (ek r ≡ sk)
    written_sound free sk kb' e = elim (same_or_not (ek new) sk) [
      | inl q ↦ (
        new,
        put_at-Holds item m kb bytes new d (some_injective (sym (put_at s (some kb) q) ∙ e)),
        q,
      )
      | inr n ↦
          let (r, h', q) = k.sound sk kb' (sym (put_ne s (ek new) (some kb) sk n) ∙ e) in
          (
            r,
            put_ne-Holds item m kb (some bytes) (λ p. let t = sym free ∙ ap m p ∙ h'.there in cc)
                h',
            q,
          )
    ]

    -- A new record is written, with its entry, where both are free.
    pub write-IndexOk :
        m kb ≡ none
        → s (ek new) ≡ none
        → IndexOk item i (put m kb (some bytes)) (put s (ek new) (some kb))
    write-IndexOk free fresh = record {
      complete = written_complete free fresh;
      sound = written_sound free;
    }

    -- A record is replaced by one with the same entry key.
    pub replace-IndexOk :
        (old : R) → Holds item m kb old → ek old ≡ ek new → IndexOk item i (put m kb (some bytes)) s
    replace-IndexOk old h q = record {
      complete = λ kb' r h'. elim (same_or_not kb kb') [
        | inl e ↦
            let u : r ≡ new =
              Holds-unique item (put m kb (some bytes)) kb' h'
                (put_at-Holds item m kb bytes new d e) in
            ap (λ x. s (ek x)) u ∙ ap s (sym q) ∙ k.complete kb old h ∙ ap (λ (b : Bytes). some b) e
        | inr n ↦ k.complete kb' r (Holds-put_ne item m kb (some bytes) n h')
      ];
      sound = λ sk kb' e.
          let (r, h', q') = k.sound sk kb' e in
          elim (same_or_not kb kb') [
            | inl p ↦
                let u : old ≡ r =
                  Holds-unique item m kb' (subst (λ b. Holds item m b old) p h) h' in
                (new, put_at-Holds item m kb bytes new d p, sym q ∙ ap ek u ∙ q')
            | inr n ↦ (r, put_ne-Holds item m kb (some bytes) n h', q')
          ];
    }

-- ===== src/Bounds/Exact.antt =====
-- A typed range and its encoded range contain the same keys.
use collette.Prelude.{ℕ, ◌≡◌, refl, Ordering, true, ◌∷◌, ◌++◌, All}
use collette.Bytes.{Bytes, AreBytes, compare_bytes}
use collette.Key.{Key, IsLawful}
use collette.Range.{Bound, Range, included, excluded, unbounded, contains, after_start, before_end}
use collette.Prefix.Successor.{prefix_end-unbounded}
use collette.Bounds.{encode_range, exact_encoder, prefix_encoder}
use collette.Bounds.Keys.{
  compare-encode, start_included, start_excluded, end_included, end_excluded,
}

-- The key of a bound satisfies a predicate.
abbrev pub AtBound : {A : Type 0} → (A → Type 0) → Bound A → Type 0
AtBound P (included a) = P a
AtBound P (excluded a) = P a
AtBound P unbounded = Unit

-- An excluded start is not a key whose encoding has 0xff in every place.
abbrev pub StartFits : {K : Type 0} → Key K → Bound K → Type 0
StartFits k (included a) = Unit
StartFits k (excluded a) = ¬ All (λ b. b ≡ 0xff) (k.encode a)
StartFits k unbounded = Unit

module _ {K : Type 0} {k : Key K} {cmp : K → K → Ordering} {IsValid : K → Type 0}
    (law : IsLawful k cmp IsValid) where
  pub exact_start :
      (b : Bound K) (x : K)
      → AtBound IsValid b
      → IsValid x
      → after_start compare_bytes ((exact_encoder k).encode_start_bound b) (k.encode x)
        ≡ after_start cmp b x
  unfolding exact_encoder
  exact_start (included a) x va vx = rw (compare-encode law a x va vx)
  exact_start (excluded a) x va vx = rw (compare-encode law a x va vx)
  exact_start unbounded x va vx = refl

  pub exact_end :
      (b : Bound K) (x : K)
      → AtBound IsValid b
      → IsValid x
      → before_end compare_bytes ((exact_encoder k).encode_end_bound b) (k.encode x)
        ≡ before_end cmp b x
  unfolding exact_encoder
  exact_end (included a) x va vx = rw (compare-encode law x a vx va)
  exact_end (excluded a) x va vx = rw (compare-encode law x a vx va)
  exact_end unbounded x va vx = refl

  -- For a lawful key type, valid bounds and a valid key, the exactly encoded range contains the
  -- encoded key exactly if the typed range contains the key.
  pub contains-encode_range_exact :
      (r : Range K) (x : K)
      → AtBound IsValid r.0
      → AtBound IsValid r.1
      → IsValid x
      → contains compare_bytes (encode_range (exact_encoder k) r) (k.encode x) ≡ contains cmp r x
  unfolding encode_range
  contains-encode_range_exact (s, e) x vs ve vx = rw (exact_start s x vs vx, exact_end e x ve vx)

  module _ (x : K) (c : ℕ) (rest : Bytes) (vx : IsValid x) (bytes : AreBytes (c ∷ rest)) where
    pub prefix_start :
        (b : Bound K)
        → AtBound IsValid b
        → StartFits k b
        → after_start compare_bytes
            ((prefix_encoder k).encode_start_bound b)
            (k.encode x ++ c ∷ rest)
          ≡ after_start cmp b x
    unfolding prefix_encoder
    prefix_start (included a) va f = start_included law a x (c ∷ rest) va vx
    prefix_start (excluded a) va f =
        start_excluded law a x c rest va vx bytes (λ e. f ((prefix_end-unbounded (k.encode a)).0 e))
    prefix_start unbounded va f = refl

    pub prefix_end_of :
        (b : Bound K)
        → AtBound IsValid b
        → before_end compare_bytes ((prefix_encoder k).encode_end_bound b) (k.encode x ++ c ∷ rest)
          ≡ before_end cmp b x
    unfolding prefix_encoder
    prefix_end_of (included a) va = end_included law a x (c ∷ rest) va vx bytes
    prefix_end_of (excluded a) va = end_excluded law a x (c ∷ rest) va vx
    prefix_end_of unbounded va = refl

    -- For a lawful index key type, valid bounds and a valid index key with at least one byte of
    -- primary key behind it, and unless the range excludes as its start a key whose encoding is
    -- all 0xff, the encoded range of an index that appends the primary key contains the stored key
    -- exactly if the typed range contains the index key.
    pub contains-encode_range_prefix :
        (r : Range K)
        → AtBound IsValid r.0
        → AtBound IsValid r.1
        → StartFits k r.0
        → contains compare_bytes (encode_range (prefix_encoder k) r) (k.encode x ++ c ∷ rest)
          ≡ contains cmp r x
    unfolding encode_range
    contains-encode_range_prefix (s, e) vs ve f = rw (prefix_start s vs f, prefix_end_of e ve)

-- A range of an index that appends the primary key, from an excluded key whose encoding is all
-- 0xff and without an end, contains every byte string, those of the excluded key among them.
pub excluded_last-contains :
    {K : Type 0} (k : Key K) (a : K) (w : Bytes)
    → All (λ b. b ≡ 0xff) (k.encode a)
    → contains compare_bytes (encode_range (prefix_encoder k) (excluded a, unbounded)) w ≡ true
unfolding encode_range prefix_encoder
excluded_last-contains k a w h = rw ((prefix_end-unbounded (k.encode a)).1 h)

-- ===== src/Bounds/Prefixed.antt =====
-- A range of suffixes under a fixed prefix, encoded, contains the keys that are composed of that
-- prefix and a suffix in the range.
use collette.Prelude.{
  ℕ, ◌≡◌, ◌∙◌, ap, Ordering, then_order, Bool, ◌&&◌, [], ◌∷◌, ◌++◌, append-nil, append_assoc, arith,
  All-append,
}
use collette.Bytes.{Bytes, AreBytes, IsByte, compare_bytes}
use collette.Bytes.Order.{flip}
use collette.Key.{Key, IsLawful}
use collette.Range.{
  Bound, Range, included, excluded, unbounded, map_bound, contains, after_start, before_end, is_lt,
  is_le, is_eq,
}
use collette.Bounds.{
  BoundsEncoder, Prefixable, encode_prefixed_range, prefixed_start, prefixed_end, exact_encoder,
  prefix_encoder, encode_prefix,
}
use collette.Bounds.Keys.{cmp_flip, start_included, end_included}
use collette.Bounds.Exact.{AtBound, StartFits, exact_start, exact_end, prefix_start, prefix_end_of}

-- What `Prefixable` asks: a composed key is encoded as its prefix and then its suffix, and is
-- ordered by them.
pub record Composes {K P S : Type 0} (k : Key K) (kp : Key P) (ks : Key S) (cmp : K → K → Ordering)
    (cmp_p : P → P → Ordering) (cmp_s : S → S → Ordering) (f : Prefixable K P S) : Type 0 where
  pub encode-compose : (p : P) (s : S) → k.encode (f.compose p s) ≡ kp.encode p ++ ks.encode s
  pub cmp-compose :
      (p q : P) (s t : S) → cmp (f.compose p s) (f.compose q t) ≡ then_order (cmp_p p q) (cmp_s s t)

module _ {S : Type 0} (cmp_s : S → S → Ordering) where
  abbrev lex_start : Ordering → Bound S → S → Bool
  lex_start o (included s) t = is_le (then_order o (cmp_s s t))
  lex_start o (excluded s) t = is_lt (then_order o (cmp_s s t))
  lex_start o unbounded t = is_le o

  abbrev lex_end : Ordering → Bound S → S → Bool
  lex_end o (included e) t = is_le (then_order o (cmp_s t e))
  lex_end o (excluded e) t = is_lt (then_order o (cmp_s t e))
  lex_end o unbounded t = is_le o

  within_prefix :
      (o : Ordering) (s e : Bound S) (t : S)
      → (lex_start o s t && lex_end (flip o) e t) ≡ (is_eq o && contains cmp_s (s, e) t)
  within_prefix o s e t = ground arith

-- A composed key with `rest` behind it, against an encoder that treats the bounds at which
-- `Fits` holds as the typed bounds.
module _ {K P S : Type 0} {k : Key K} {kp : Key P} {ks : Key S} {cmp : K → K → Ordering}
    {cmp_p : P → P → Ordering} {cmp_s : S → S → Ordering} {VP : P → Type 0} {VS : S → Type 0}
    {f : Prefixable K P S} (law_p : IsLawful kp cmp_p VP) (law_s : IsLawful ks cmp_s VS)
    (c : Composes k kp ks cmp cmp_p cmp_s f) (e : BoundsEncoder K)
    (FitsStart FitsEnd : Bound K → Type 0) (p q : P) (t : S) (rest : Bytes) (vp : VP p) (vq : VP q)
    (vt : VS t) (bytes : AreBytes rest)
    (hs : (b : Bound K)
      → FitsStart b
      → after_start compare_bytes (e.encode_start_bound b) (k.encode (f.compose q t) ++ rest)
        ≡ after_start cmp b (f.compose q t))
    (he : (b : Bound K)
      → FitsEnd b
      → before_end compare_bytes (e.encode_end_bound b) (k.encode (f.compose q t) ++ rest)
        ≡ before_end cmp b (f.compose q t)) where
  start_lem :
      (s : Bound S)
      → FitsStart (map_bound (f.compose p) s)
      → after_start compare_bytes (prefixed_start e kp f p s) (k.encode (f.compose q t) ++ rest)
        ≡ lex_start cmp_s (cmp_p p q) s t
  unfolding prefixed_start encode_prefix
  start_lem (included s) h = hs (included (f.compose p s)) h ∙ ap is_le (c.cmp-compose p q s t)
  start_lem (excluded s) h = hs (excluded (f.compose p s)) h ∙ ap is_lt (c.cmp-compose p q s t)
  start_lem unbounded h =
      rw (c.encode-compose q t, append_assoc) (start_included law_p p q (ks.encode t ++ rest) vp vq)

  end_lem :
      (b : Bound S)
      → FitsEnd (map_bound (f.compose p) b)
      → before_end compare_bytes (prefixed_end e kp f p b) (k.encode (f.compose q t) ++ rest)
        ≡ lex_end cmp_s (cmp_p q p) b t
  unfolding prefixed_end encode_prefix
  end_lem (included s) h = he (included (f.compose p s)) h ∙ ap is_le (c.cmp-compose q p t s)
  end_lem (excluded s) h = he (excluded (f.compose p s)) h ∙ ap is_lt (c.cmp-compose q p t s)
  end_lem unbounded h =
      rw (c.encode-compose q t, append_assoc)
        (end_included law_p p q (ks.encode t ++ rest) vp vq
          (All-append IsByte (ks.encode t) rest (law_s.bytes t vt) bytes))

  contains_prefixed :
      (r : Range S)
      → FitsStart (map_bound (f.compose p) r.0)
      → FitsEnd (map_bound (f.compose p) r.1)
      → contains compare_bytes (encode_prefixed_range e kp f p r) (k.encode (f.compose q t) ++ rest)
        ≡ (is_eq (cmp_p p q) && contains cmp_s r t)
  unfolding encode_prefixed_range
  contains_prefixed (s, b) hs' he' =
      rw (start_lem s hs', end_lem b he', cmp_flip law_p p q vp vq)
        (within_prefix cmp_s (cmp_p p q) s b t)

module _ {K P S : Type 0} {k : Key K} {kp : Key P} {ks : Key S} {cmp : K → K → Ordering}
    {cmp_p : P → P → Ordering} {cmp_s : S → S → Ordering} {VK : K → Type 0} {VP : P → Type 0}
    {VS : S → Type 0} {f : Prefixable K P S} (law : IsLawful k cmp VK)
    (law_p : IsLawful kp cmp_p VP) (law_s : IsLawful ks cmp_s VS)
    (c : Composes k kp ks cmp cmp_p cmp_s f)
    (valid : (p : P) (s : S) → VP p → VS s → VK (f.compose p s)) (p q : P) (r : Range S) (t : S)
    (vp : VP p) (vq : VP q) (vs : AtBound VS r.0) (ve : AtBound VS r.1) (vt : VS t) where
  at_composed : (b : Bound S) → AtBound VS b → AtBound VK (map_bound (f.compose p) b)
  at_composed (included s) v = valid p s vp v
  at_composed (excluded s) v = valid p s vp v
  at_composed unbounded v = tt

  -- The exactly encoded range of suffixes under a prefix contains an encoded key exactly if its
  -- prefix is the given one and its suffix is in the range, for valid keys.
  pub contains-encode_prefixed_range_exact :
      contains compare_bytes
        (encode_prefixed_range (exact_encoder k) kp f p r)
        (k.encode (f.compose q t))
      ≡ (is_eq (cmp_p p q) && contains cmp_s r t)
  contains-encode_prefixed_range_exact = rw append-nil at (
      contains_prefixed law_p law_s c (exact_encoder k) (AtBound VK) (AtBound VK) p q t [] vp vq vt
        tt (λ b v. rw append-nil (exact_start law b (f.compose q t) v (valid q t vq vt)))
        (λ b v. rw append-nil (exact_end law b (f.compose q t) v (valid q t vq vt))) r
        (at_composed r.0 vs) (at_composed r.1 ve))

  -- For an index that appends the primary key: the encoded range of suffixes under a prefix
  -- contains a stored key exactly if its prefix is the given one and its suffix is in the range,
  -- for valid keys, at least one byte of primary key, and unless the composed start is excluded
  -- and its encoding is all 0xff.
  pub contains-encode_prefixed_range_prefix :
      (b : ℕ) (rest : Bytes)
      → AreBytes (b ∷ rest)
      → StartFits k (map_bound (f.compose p) r.0)
      → contains compare_bytes
          (encode_prefixed_range (prefix_encoder k) kp f p r)
          (k.encode (f.compose q t) ++ b ∷ rest)
        ≡ (is_eq (cmp_p p q) && contains cmp_s r t)
  contains-encode_prefixed_range_prefix b rest bytes fits =
      contains_prefixed law_p law_s c (prefix_encoder k) (λ a. AtBound VK a × StartFits k a)
        (AtBound VK) p q t (b ∷ rest) vp vq vt bytes
        (λ a v. prefix_start law (f.compose q t) b rest (valid q t vq vt) bytes a v.0 v.1)
        (λ a v. prefix_end_of law (f.compose q t) b rest (valid q t vq vt) bytes a v) r
        (at_composed r.0 vs, fits) (at_composed r.1 ve)

-- ===== src/Bounds.antt =====
-- bounds.rs: typed ranges as ranges of encoded bytes, for unique indexes and primary keys (exact)
-- and for indexes that append the primary key (prefix); prefix.rs: `Prefixable`.
pub mod Keys
pub mod Exact
pub mod Prefixed
pub mod Instances
use collette.Bytes.{Bytes}
use collette.Key.{Key}
use collette.Range.{Bound, Range, included, excluded, unbounded, map_bound}
use collette.Prefix.{prefix_end}

abbrev pub ScanBound : Type 0
ScanBound = Bound Bytes

abbrev pub ScanRange : Type 0
ScanRange = Range Bytes

-- The two required methods of the trait.
pub record BoundsEncoder (K : Type 0) : Type 0 where
  pub encode_start_bound : Bound K → ScanBound
  pub encode_end_bound : Bound K → ScanBound

module _ {K : Type 0} (k : Key K) where
  unfoldable pub exact_encoder : BoundsEncoder K
  exact_encoder = record {
    encode_start_bound = map_bound k.encode;
    encode_end_bound = map_bound k.encode;
  }

  prefix_start_bound : Bound K → ScanBound
  prefix_start_bound (included a) = included (k.encode a)
  prefix_start_bound (excluded a) = prefix_end (k.encode a)
  prefix_start_bound unbounded = unbounded

  prefix_end_bound : Bound K → ScanBound
  prefix_end_bound (included a) = prefix_end (k.encode a)
  prefix_end_bound (excluded a) = excluded (k.encode a)
  prefix_end_bound unbounded = unbounded

  unfoldable pub prefix_encoder : BoundsEncoder K
  unfolding prefix_start_bound prefix_end_bound
  prefix_encoder = record {
    encode_start_bound = prefix_start_bound;
    encode_end_bound = prefix_end_bound;
  }

  -- `encode_prefix`, for a key type `K` that serves as a prefix.
  unfoldable pub encode_prefix : K → ScanRange
  encode_prefix p = let bound = k.encode p in (included bound, prefix_end bound)

unfoldable pub encode_range : {K : Type 0} → BoundsEncoder K → Range K → ScanRange
encode_range e (start, end) = (e.encode_start_bound start, e.encode_end_bound end)

-- `Prefixable<P>` for `K` with the suffix type `S`.
pub record Prefixable (K P S : Type 0) : Type 0 where
  pub compose : P → S → K

module _ {K P S : Type 0} (e : BoundsEncoder K) (kp : Key P) (f : Prefixable K P S) where
  prefixed_start : P → Bound S → ScanBound
  prefixed_start p (included s) = e.encode_start_bound (included (f.compose p s))
  prefixed_start p (excluded s) = e.encode_start_bound (excluded (f.compose p s))
  prefixed_start p unbounded = (encode_prefix kp p).0

  prefixed_end : P → Bound S → ScanBound
  prefixed_end p (included s) = e.encode_end_bound (included (f.compose p s))
  prefixed_end p (excluded s) = e.encode_end_bound (excluded (f.compose p s))
  prefixed_end p unbounded = (encode_prefix kp p).1

  unfoldable pub encode_prefixed_range : P → Range S → ScanRange
  unfolding prefixed_start prefixed_end encode_prefix
  encode_prefixed_range p (start, end) = (prefixed_start p start, prefixed_end p end)

-- `Prefixable` for tuples: of pairs by the first part, of triples by the first and by the first
-- two, of quadruples by the first, the first two and the first three.
unfoldable pub pair_by_first : {A B : Type 0} → Prefixable (A × B) A B
pair_by_first = record { compose = λ a b. (a, b) }

unfoldable pub triple_by_first : {A B C : Type 0} → Prefixable (A × B × C) A (B × C)
triple_by_first = record { compose = λ a bc. (a, bc.0, bc.1) }

unfoldable pub triple_by_two : {A B C : Type 0} → Prefixable (A × B × C) (A × B) C
triple_by_two = record { compose = λ ab c. (ab.0, ab.1, c) }

unfoldable pub quad_by_first : {A B C D : Type 0} → Prefixable (A × B × C × D) A (B × C × D)
quad_by_first = record { compose = λ a bcd. (a, bcd.0, bcd.1, bcd.2) }

unfoldable pub quad_by_two : {A B C D : Type 0} → Prefixable (A × B × C × D) (A × B) (C × D)
quad_by_two = record { compose = λ ab cd. (ab.0, ab.1, cd.0, cd.1) }

unfoldable pub quad_by_three : {A B C D : Type 0} → Prefixable (A × B × C × D) (A × B × C) D
quad_by_three = record { compose = λ abc d. (abc.0, abc.1, abc.2, d) }

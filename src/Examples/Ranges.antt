-- ===== src/Examples/Ranges.antt =====
-- The encoded ranges of bounds.rs at concrete keys.
use collette.Prelude.{◌≡◌, refl, compare, ◌&&◌, true, [], ◌∷◌, ◌++◌, arith}
use collette.Bytes.{compare_bytes}
use collette.Range.{included, excluded, unbounded, contains, is_eq}
use collette.Key.Unsigned.{to_be_bytes, unsigned_key}
use collette.Key.Tuple.{pair_key, pair_key-IsLawful}
use collette.Bounds.{encode_range, prefix_encoder, encode_prefixed_range, pair_by_first}
use collette.Bounds.Exact.{contains-encode_range_prefix, excluded_last-contains}
use collette.Bounds.Prefixed.{contains-encode_prefixed_range_prefix}
use collette.Bounds.Instances.{pair_by_first-Composes}
use collette.Examples.Keys.{no_debug, short_key, short_key-IsLawful}

-- from 255, excluded, to 300, with one byte of primary key
contains-encode_range_prefix_example :
    contains compare_bytes
      (encode_range (prefix_encoder short_key) (excluded 255, included 300))
      (short_key.encode 300 ++ 9 ∷ [])
    ≡ contains compare (excluded 255, included 300) 300
unfolding to_be_bytes unsigned_key
contains-encode_range_prefix_example =
    contains-encode_range_prefix short_key-IsLawful 300 9 [] (omega arith) (omega arith, tt)
      (excluded 255, included 300) (omega arith) (omega arith) (λ h. omega (arith, h.0))

excluded_last-contains_example :
    contains compare_bytes
      (encode_range (prefix_encoder short_key) (excluded 65535, unbounded))
      (0 ∷ [])
    ≡ true
unfolding to_be_bytes unsigned_key
excluded_last-contains_example = excluded_last-contains short_key 65535 (0 ∷ []) (refl, (refl, tt))

contains-encode_prefixed_range_prefix_example :
    contains compare_bytes
      (encode_prefixed_range
        (prefix_encoder (pair_key short_key short_key no_debug))
        short_key
        pair_by_first
        7
        (included 1, excluded 300))
      ((pair_key short_key short_key no_debug).encode (pair_by_first.compose 8 4) ++ 9 ∷ [])
    ≡ (is_eq (compare 7 8) && contains compare (included 1, excluded 300) 4)
unfolding pair_by_first
contains-encode_prefixed_range_prefix_example =
    contains-encode_prefixed_range_prefix
      (pair_key-IsLawful short_key-IsLawful short_key-IsLawful no_debug) short_key-IsLawful
      short_key-IsLawful (pair_by_first-Composes short_key short_key compare compare no_debug)
      (λ p s vp vs. (vp, vs)) 7 8 (included 1, excluded 300) 4 (omega arith) (omega arith)
      (omega arith) (omega arith) (omega arith) 9 [] (omega arith, tt) tt

-- ===== src/Key/Delegate.antt =====
-- key.rs: the key types `&K` and `(K,)`, which hand every method on to `K`.
use collette.Prelude.{Ordering, String}
use collette.Key.{Key, IsLawful}

module _ {K : Type 0} (k : Key K) where
  unfoldable pub ref_key : Key K
  ref_key = record {
    size = k.size;
    encode = λ a. k.encode a;
    decode_part = λ bytes. k.decode_part bytes;
    beq = k.beq;
    debug = k.debug;
  }

  -- A tuple of one part is that part; only its debug text differs.
  unfoldable pub one_key : (K → String) → Key K
  one_key debug = record {
    size = k.size;
    encode = λ a. k.encode a;
    decode_part = λ bytes. k.decode_part bytes;
    beq = k.beq;
    debug = debug;
  }

module _ {K : Type 0} {k : Key K} {cmp : K → K → Ordering} {IsValid : K → Type 0}
    (law : IsLawful k cmp IsValid) where
  pub ref_key-IsLawful : IsLawful (ref_key k) cmp IsValid
  unfolding ref_key
  ref_key-IsLawful = law

  pub one_key-IsLawful : (debug : K → String) → IsLawful (one_key k debug) cmp IsValid
  unfolding one_key
  one_key-IsLawful debug = record {
    round_trip = law.round_trip;
    order = law.order;
    sized = law.sized;
    bytes = law.bytes;
    cmp_refl = law.cmp_refl;
    eq_of_cmp = law.eq_of_cmp;
    beq_iff = law.beq_iff;
  }

-- ===== src/Key/Scalar.antt =====
-- key.rs: the key types `bool` and `[u8; S]`.
use collette.Prelude.{
  ℕ, zero, suc, ◌≡◌, refl, ◌↔◌, Ordering, lt, eq, gt, then_order, Bool, true, false, Option, none,
  some, [], ◌∷◌, ◌++◌, String, length, arith,
}
use collette.Bytes.{Bytes, AreBytes, compare_bytes, split_at, ◌=ᵇ◌}
use collette.Bytes.Order.{compare_bytes_refl, eq_of_compare_bytes, =ᵇ_iff, split_at-append}
use collette.Key.{Key, fixed, IsLawful}

unfoldable pub encode_bool : Bool → Bytes
encode_bool true = 1 ∷ []
encode_bool false = 0 ∷ []

-- `none` is the panic on other bytes.
unfoldable pub decode_bool : Bytes → Option (Bool × Bytes)
decode_bool [] = none
decode_bool (zero ∷ r) = some (false, r)
decode_bool (suc zero ∷ r) = some (true, r)
decode_bool (suc (suc b) ∷ r) = none

abbrev beq_bool : Bool → Bool → Bool
beq_bool true b = b
beq_bool false true = false
beq_bool false false = true

unfoldable pub bool_key : (Bool → String) → Key Bool
unfolding encode_bool decode_bool
bool_key debug = record {
  size = fixed 1;
  encode = encode_bool;
  decode_part = decode_bool;
  beq = beq_bool;
  debug = debug;
}

-- `false` comes before `true`.
abbrev pub compare_bool : Bool → Bool → Ordering
compare_bool false false = eq
compare_bool false true = lt
compare_bool true false = gt
compare_bool true true = eq

bool_round_trip : (b : Bool) (r : Bytes) → decode_bool (encode_bool b ++ r) ≡ some (b, r)
unfolding decode_bool encode_bool
bool_round_trip true r = refl
bool_round_trip false r = refl

bool_order :
    (a b : Bool) (r s : Bytes)
    → compare_bytes (encode_bool a ++ r) (encode_bool b ++ s)
      ≡ then_order (compare_bool a b) (compare_bytes r s)
unfolding compare_bytes encode_bool
bool_order true true r s = refl
bool_order true false r s = refl
bool_order false true r s = refl
bool_order false false r s = refl

bool_bytes : (b : Bool) → AreBytes (encode_bool b)
unfolding encode_bool
bool_bytes true = omega arith
bool_bytes false = omega arith

bool_length : (b : Bool) (n : ℕ) → fixed 1 ≡ fixed n → length (encode_bool b) ≡ n
unfolding encode_bool
bool_length true n e = ground arith
bool_length false n e = ground arith

bool_cmp_refl : (b : Bool) → compare_bool b b ≡ eq
bool_cmp_refl true = refl
bool_cmp_refl false = refl

bool_eq_of_cmp : (a b : Bool) → compare_bool a b ≡ eq → a ≡ b
bool_eq_of_cmp a b h = ground arith

bool_beq_iff : (a b : Bool) → (beq_bool a b ≡ true) ↔ (a ≡ b)
bool_beq_iff a b = ground arith

-- The encoding of booleans is lawful for false before true.
pub bool_key-IsLawful :
    (debug : Bool → String) → IsLawful (bool_key debug) compare_bool (λ _. Unit {0})
unfolding bool_key
bool_key-IsLawful debug = record {
  round_trip = λ b r _. bool_round_trip b r;
  order = λ a b r s _ _. bool_order a b r s;
  sized = λ b n _ e. bool_length b n e;
  bytes = λ b _. bool_bytes b;
  cmp_refl = bool_cmp_refl;
  eq_of_cmp = bool_eq_of_cmp;
  beq_iff = bool_beq_iff;
}

-- `[u8; S]` is encoded as it stands.
unfoldable pub array_key : ℕ → (Bytes → String) → Key Bytes
array_key width debug = record {
  size = fixed width;
  encode = λ a. a;
  decode_part = split_at width;
  beq = ◌=ᵇ◌;
  debug = debug;
}

compare-append_same_length :
    (a b r s : Bytes)
    → length a ≡ length b
    → compare_bytes (a ++ r) (b ++ s) ≡ then_order (compare_bytes a b) (compare_bytes r s)
unfolding compare_bytes
compare-append_same_length [] [] r s e = refl
compare-append_same_length [] (y ∷ b) r s e = absurd (omega arith)
compare-append_same_length (x ∷ a) [] r s e = absurd (omega arith)
compare-append_same_length (x ∷ a) (y ∷ b) r s e =
    ground (arith, compare-append_same_length a b r s)

-- The encoding of byte arrays is lawful for the order of byte strings, at arrays of the width.
pub array_key-IsLawful :
    (width : ℕ) (debug : Bytes → String)
    → IsLawful (array_key width debug) compare_bytes (λ a. (length a ≡ width) × AreBytes a)
unfolding array_key
array_key-IsLawful width debug = record {
  round_trip = λ a r v. split_at-append width a r v.0;
  order = λ a b r s v w. compare-append_same_length a b r s (omega arith);
  sized = λ a n v e. ground arith;
  bytes = λ a v. v.1;
  cmp_refl = compare_bytes_refl;
  eq_of_cmp = eq_of_compare_bytes;
  beq_iff = =ᵇ_iff;
}

-- ===== src/Key/Signed.antt =====
-- macros.rs, `impl_signed_integer_key!`: the sign bit is flipped, and the result is encoded as
-- an unsigned number. The width is the number of bytes.
use native.Mathlib.Numerals.{towards_suc}
use native.Mathlib.Nat.{pow-suc}
use collette.Prelude.{
  ℕ, zero, suc, ◌+◌, ◌-◌, ◌*◌, ◌/◌, ◌^◌, ◌<◌, ◌≡◌, refl, compare, Ordering, lt, eq, gt, Bool, true,
  false, ◌↔◌, bit_xor, Option, none, some, String, ltb, if◌then◌else◌, ◌==◌, arith, ◌++◌,
}
use collette.Bytes.{Bytes}
use collette.Key.{Key, fixed, IsLawful}
use collette.Key.Unsigned.{
  to_be_bytes, decode_unsigned, decode_unsigned-to_be_bytes, compare-to_be_bytes,
  length-to_be_bytes, to_be_bytes-AreBytes,
}
use collette.Key.Xor.{bit_xor_top}

-- `negsuc n` is -(n + 1).
pub data ℤ : Type 0 where
  pos : ℕ → ℤ
  negsuc : ℕ → ℤ

-- `MIN as $unsigned`: the top bit alone.
unfoldable pub sign_bit : ℕ → ℕ
sign_bit width = 256 ^ width / 2

-- The casts between the signed and the unsigned type of a width, in two's complement.
unfoldable pub as_unsigned : ℕ → ℤ → ℕ
as_unsigned width (pos n) = n
as_unsigned width (negsuc n) = 256 ^ width - 1 - n

unfoldable pub as_signed : ℕ → ℕ → ℤ
unfolding sign_bit
as_signed width u = if ltb u (sign_bit width) then pos u else negsuc (256 ^ width - 1 - u)

unfoldable pub encode_signed : ℕ → ℤ → Bytes
unfolding sign_bit as_unsigned
encode_signed width v = to_be_bytes width (bit_xor (as_unsigned width v) (sign_bit width))

unfoldable pub decode_signed : ℕ → Bytes → Option (ℤ × Bytes)
unfolding sign_bit as_signed
decode_signed width bytes = elim (decode_unsigned width bytes) [
  | none ↦ none
  | some (sortable, r) ↦ some (as_signed width (bit_xor sortable (sign_bit width)), r)
]

abbrev beq_int : ℤ → ℤ → Bool
beq_int (pos m) (pos n) = m == n
beq_int (pos m) (negsuc n) = false
beq_int (negsuc m) (pos n) = false
beq_int (negsuc m) (negsuc n) = m == n

unfoldable pub signed_key : ℕ → (ℤ → String) → Key ℤ
unfolding encode_signed decode_signed
signed_key width debug = record {
  size = fixed width;
  encode = encode_signed width;
  decode_part = decode_signed width;
  beq = beq_int;
  debug = debug;
}

abbrev pub compare_int : ℤ → ℤ → Ordering
compare_int (pos m) (pos n) = compare m n
compare_int (pos m) (negsuc n) = gt
compare_int (negsuc m) (pos n) = lt
compare_int (negsuc m) (negsuc n) = compare n m

-- The values of the signed type of a width.
abbrev pub FitsSigned : ℕ → ℤ → Type 0
FitsSigned width (pos n) = n + n < 256 ^ width
FitsSigned width (negsuc n) = n + n < 256 ^ width

-- The value moved up by half the range.
abbrev shifted : ℕ → ℤ → ℕ
shifted half (pos n) = half + n
shifted half (negsuc n) = half - 1 - n

-- The number of bits below the sign bit.
low_bits : ℕ → ℕ
low_bits zero = 7
low_bits (suc m) = low_bits m + 8

pow_byte : (k : ℕ) → 2 ^ (k + 8) ≡ 256 * 2 ^ k
pow_byte k = simp (towards_suc, pow-suc) (omega arith)

range-pow : (m : ℕ) → 256 ^ suc m ≡ 2 ^ low_bits m + 2 ^ low_bits m
unfolding low_bits
range-pow zero = refl
range-pow (suc m) = omega (arith, range-pow m, pow_byte (low_bits m), pow-suc 256 (suc m))

-- The encoded number is the shifted value.
module _ (m : ℕ) where
  abbrev half : ℕ
  half = 2 ^ low_bits m

  sign_bit_lem : sign_bit (suc m) ≡ half
  unfolding sign_bit
  sign_bit_lem = omega (arith, range-pow m)

  flip_shifts :
      (v : ℤ)
      → FitsSigned (suc m) v
      → bit_xor (as_unsigned (suc m) v) (sign_bit (suc m)) ≡ shifted half v
  unfolding as_unsigned
  flip_shifts (pos n) h =
      rw sign_bit_lem
        (ground (arith, range-pow m, pow-suc 2 (low_bits m), bit_xor_top (low_bits m) n))
  flip_shifts (negsuc n) h = rw sign_bit_lem (
      ground (
        arith,
        range-pow m,
        pow-suc 2 (low_bits m),
        bit_xor_top (low_bits m) (256 ^ suc m - 1 - n),
      ))

  unflip_shifts :
      (v : ℤ)
      → FitsSigned (suc m) v
      → as_signed (suc m) (bit_xor (shifted half v) (sign_bit (suc m))) ≡ v
  unfolding as_signed
  unflip_shifts (pos n) h = rw sign_bit_lem (
      ground (
        arith,
        sign_bit_lem,
        range-pow m,
        pow-suc 2 (low_bits m),
        bit_xor_top (low_bits m) (half + n),
      ))
  unflip_shifts (negsuc n) h = rw sign_bit_lem (
      ground (
        arith,
        sign_bit_lem,
        range-pow m,
        pow-suc 2 (low_bits m),
        bit_xor_top (low_bits m) (half - 1 - n),
      ))

  shifted-lt : (v : ℤ) → FitsSigned (suc m) v → shifted half v < 256 ^ suc m
  shifted-lt (pos n) h = omega (arith, range-pow m)
  shifted-lt (negsuc n) h = omega (arith, range-pow m)

  compare-shifted :
      (v w : ℤ)
      → FitsSigned (suc m) v
      → FitsSigned (suc m) w
      → compare (shifted half v) (shifted half w) ≡ compare_int v w
  compare-shifted (pos a) (pos b) h k = ground (arith, range-pow m)
  compare-shifted (pos a) (negsuc b) h k = ground (arith, range-pow m)
  compare-shifted (negsuc a) (pos b) h k = ground (arith, range-pow m)
  compare-shifted (negsuc a) (negsuc b) h k = ground (arith, range-pow m)

compare_int_refl : (v : ℤ) → compare_int v v ≡ eq
compare_int_refl (pos n) = ground arith
compare_int_refl (negsuc n) = ground arith

eq_of_compare_int : (v w : ℤ) → compare_int v w ≡ eq → v ≡ w
eq_of_compare_int (pos a) (pos b) h = ground arith
eq_of_compare_int (pos a) (negsuc b) h = cc
eq_of_compare_int (negsuc a) (pos b) h = cc
eq_of_compare_int (negsuc a) (negsuc b) h = ground arith

beq_int_iff : (v w : ℤ) → (beq_int v w ≡ true) ↔ (v ≡ w)
beq_int_iff (pos a) (pos b) = ground arith
beq_int_iff (pos a) (negsuc b) = ground arith
beq_int_iff (negsuc a) (pos b) = ground arith
beq_int_iff (negsuc a) (negsuc b) = ground arith

encode_signed-shifted :
    (m : ℕ) (v : ℤ)
    → FitsSigned (suc m) v
    → encode_signed (suc m) v ≡ to_be_bytes (suc m) (shifted (half m) v)
unfolding encode_signed
encode_signed-shifted m v h = rw (flip_shifts m v h)

signed_round_trip :
    (m : ℕ) (v : ℤ) (r : Bytes)
    → FitsSigned (suc m) v
    → decode_signed (suc m) (encode_signed (suc m) v ++ r) ≡ some (v, r)
unfolding decode_signed
signed_round_trip m v r h = rw (
  encode_signed-shifted m v h,
  decode_unsigned-to_be_bytes (suc m) (shifted (half m) v) r (shifted-lt m v h),
  decode_signed,
  unflip_shifts m v h,
)

-- The signed encoding of any width of at least one byte is lawful for the order of the integers,
-- at all the values of the width.
pub signed_key-IsLawful :
    (m : ℕ) (debug : ℤ → String)
    → IsLawful (signed_key (suc m) debug) compare_int (FitsSigned (suc m))
unfolding signed_key
signed_key-IsLawful m debug = record {
  round_trip = signed_round_trip m;
  order = λ v w r s h k.
      rw (encode_signed-shifted m v h, encode_signed-shifted m w k, ← compare-shifted m v w h k)
        (compare-to_be_bytes (suc m) (shifted (half m) v) (shifted (half m) w) r s
          (shifted-lt m v h) (shifted-lt m w k));
  sized = λ v n h e.
      rw (encode_signed-shifted m v h)
        (ground (arith, length-to_be_bytes (suc m) (shifted (half m) v)));
  bytes =
      λ v h. rw (encode_signed-shifted m v h) (to_be_bytes-AreBytes (suc m) (shifted (half m) v));
  cmp_refl = compare_int_refl;
  eq_of_cmp = eq_of_compare_int;
  beq_iff = beq_int_iff;
}

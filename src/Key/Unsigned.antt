-- ===== src/Key/Unsigned.antt =====
-- macros.rs, `impl_unsigned_integer_key!`: big-endian encoding of `u8` to `u128`. The width is the
-- number of bytes, and a value is a number below 256 ^ width.
use collette.Prelude.{
  ℕ, zero, suc, ◌+◌, ◌*◌, ◌/◌, ◌%◌, ◌^◌, ◌<◌, ◌≡◌, refl, ap, compare, then_order, Option, none,
  some, [], ◌∷◌, ◌++◌, String, length, arith, ◌==◌,
}
use native.Mathlib.Nat.{
  pow-suc, mod-lt, mod-eq_of_lt, one-le-pow, div-add-mod, div-lt_iff_lt-mul, mul_comm,
  mul-le-mul_left,
}
use collette.Bytes.{Bytes, AreBytes, compare_bytes, split_at}
use collette.Bytes.Order.{split_at-append}
use collette.Prelude.Orders.{then_order_assoc, compare_refl, eq_of_compare, ==_iff}
use collette.Key.{Key, fixed, IsLawful}

-- `to_be_bytes` of the standard library, at any width.
unfoldable pub to_be_bytes : ℕ → ℕ → Bytes
to_be_bytes zero v = []
to_be_bytes (suc n) v = (v / 256 ^ n % 256) ∷ to_be_bytes n (v % 256 ^ n)

from_be_bytes_after : ℕ → Bytes → ℕ
from_be_bytes_after acc [] = acc
from_be_bytes_after acc (b ∷ bs) = from_be_bytes_after (acc * 256 + b) bs

-- `from_be_bytes`
unfoldable pub from_be_bytes : Bytes → ℕ
unfolding from_be_bytes_after
from_be_bytes bs = from_be_bytes_after 0 bs

unfoldable pub decode_unsigned : ℕ → Bytes → Option (ℕ × Bytes)
unfolding from_be_bytes
decode_unsigned width bytes = elim (split_at width bytes) [
  | none ↦ none
  | some (kbytes, r) ↦ some (from_be_bytes kbytes, r)
]

unfoldable pub unsigned_key : ℕ → (ℕ → String) → Key ℕ
unsigned_key width debug = record {
  size = fixed width;
  encode = to_be_bytes width;
  decode_part = decode_unsigned width;
  beq = ◌==◌;
  debug = debug;
}

pub length-to_be_bytes : (n v : ℕ) → length (to_be_bytes n v) ≡ n
unfolding to_be_bytes
length-to_be_bytes zero v = refl
length-to_be_bytes (suc n) v = ap suc (length-to_be_bytes n (v % 256 ^ n))

pub to_be_bytes-AreBytes : (n v : ℕ) → AreBytes (to_be_bytes n v)
unfolding to_be_bytes
to_be_bytes-AreBytes zero v = tt
to_be_bytes-AreBytes (suc n) v = (omega arith, to_be_bytes-AreBytes n (v % 256 ^ n))

pow_pos : (n : ℕ) → 0 < 256 ^ n
pow_pos n = one-le-pow n 256 (omega arith)

-- The leading digit of a number that fits, and what is left of it.
digit-lt : (n v : ℕ) → v < 256 ^ suc n → v / 256 ^ n < 256
digit-lt n v h = (div-lt_iff_lt-mul (pow_pos n)).1 (rw mul_comm (rw pow-suc at h))

rest-lt : (n v : ℕ) → v % 256 ^ n < 256 ^ n
rest-lt n v = mod-lt v (pow_pos n)

from_be_bytes_after-to_be_bytes :
    (n acc v : ℕ) → v < 256 ^ n → from_be_bytes_after acc (to_be_bytes n v) ≡ acc * 256 ^ n + v
unfolding from_be_bytes_after to_be_bytes
from_be_bytes_after-to_be_bytes zero acc v h = omega arith
from_be_bytes_after-to_be_bytes (suc n) acc v h = rw (mod-eq_of_lt (digit-lt n v h)) (
    rw (from_be_bytes_after-to_be_bytes n (acc * 256 + v / 256 ^ n) (v % 256 ^ n) (rest-lt n v)) (
      omega
        (arith, pow-suc 256 n, div-add-mod v (256 ^ n), ap (λ (t : ℕ). acc * t) (pow-suc 256 n))))

digits_le : (b q r q' r' : ℕ) → r < b → q < q' → b * q + r < b * q' + r'
digits_le b q r q' r' h l = omega (arith, mul-le-mul_left b l)

compare_digits :
    (b q r q' r' : ℕ)
    → r < b
    → r' < b
    → compare (b * q + r) (b * q' + r') ≡ then_order (compare q q') (compare r r')
compare_digits b q r q' r' h h' = ground (arith, digits_le b q r q' r' h, digits_le b q' r' q r h')

compare_by_digits :
    (n v w : ℕ)
    → compare v w
      ≡ then_order (compare (v / 256 ^ n) (w / 256 ^ n)) (compare (v % 256 ^ n) (w % 256 ^ n))
compare_by_digits n v w = rw (div-add-mod v (256 ^ n)) at (
    rw (div-add-mod w (256 ^ n)) at (
      compare_digits (256 ^ n) (v / 256 ^ n) (v % 256 ^ n) (w / 256 ^ n) (w % 256 ^ n) (rest-lt n v)
        (rest-lt n w)))

-- Big-endian bytes compare as the numbers do, and then as what follows them.
pub compare-to_be_bytes :
    (n v w : ℕ) (r s : Bytes)
    → v < 256 ^ n
    → w < 256 ^ n
    → compare_bytes (to_be_bytes n v ++ r) (to_be_bytes n w ++ s)
      ≡ then_order (compare v w) (compare_bytes r s)
unfolding compare_bytes to_be_bytes
compare-to_be_bytes zero v w r s h k = ground arith
compare-to_be_bytes (suc n) v w r s h k = rw (
  mod-eq_of_lt (digit-lt n v h),
  mod-eq_of_lt (digit-lt n w k),
  compare-to_be_bytes n (v % 256 ^ n) (w % 256 ^ n) r s (rest-lt n v) (rest-lt n w),
  compare_by_digits n v w,
  then_order_assoc,
)

pub decode_unsigned-to_be_bytes :
    (n v : ℕ) (r : Bytes) → v < 256 ^ n → decode_unsigned n (to_be_bytes n v ++ r) ≡ some (v, r)
unfolding decode_unsigned
decode_unsigned-to_be_bytes n v r h =
    rw
      (
        split_at-append n (to_be_bytes n v) r (length-to_be_bytes n v),
        from_be_bytes_after-to_be_bytes n 0 v h,
        decode_unsigned,
      )
      (ap (λ (t : ℕ). some (t, r)) (omega arith))

-- The unsigned encoding of any width is lawful for the numeric order, at all the values of the
-- width.
pub unsigned_key-IsLawful :
    (width : ℕ) (debug : ℕ → String)
    → IsLawful (unsigned_key width debug) compare (λ v. v < 256 ^ width)
unfolding unsigned_key
unsigned_key-IsLawful width debug = record {
  round_trip = decode_unsigned-to_be_bytes width;
  order = compare-to_be_bytes width;
  sized = λ a n h e. ground (arith, length-to_be_bytes width a);
  bytes = λ a h. to_be_bytes-AreBytes width a;
  cmp_refl = compare_refl;
  eq_of_cmp = eq_of_compare;
  beq_iff = ==_iff;
}

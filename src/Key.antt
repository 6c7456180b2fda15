-- ===== src/Key.antt =====
-- key.rs: the trait `Key` and what an ordered key encoding has to satisfy. The encodings stand in
-- the modules below. A borrowed key and its `OwnedKey` are one type here.
pub mod Unsigned
pub mod Tuple
pub mod Triple
pub mod Quad
pub mod Enum
pub mod Delegate
pub mod Vector
pub mod Text
pub mod Scalar
pub mod Xor
pub mod Signed
use collette.Prelude.{
  ℕ, ◌≡◌, ◌↔◌, Ordering, eq, then_order, Bool, true, Option, none, some, [], ◌∷◌, ◌++◌, String,
  length,
}
use collette.Bytes.{Bytes, AreBytes, compare_bytes}

pub data KeySize : Type 0 where
  fixed : ℕ → KeySize
  variable : KeySize

-- The methods of `Key`, with those of its supertraits `Eq` (beq) and `Debug` (debug). `none` is a
-- panic of the decoder.
pub record Key (K : Type 0) : Type 0 where
  pub size : KeySize
  pub encode : K → Bytes
  pub decode_part : Bytes → Option (K × Bytes)
  pub beq : K → K → Bool
  pub debug : K → String

-- The rest after a key must be empty.
all_read : {K : Type 0} → Option (K × Bytes) → Option K
all_read none = none
all_read (some (key, [])) = some key
all_read (some (key, b ∷ rest)) = none

-- `Key::decode`
unfoldable pub decode : {K : Type 0} → Key K → Bytes → Option K
unfolding all_read
decode k bytes = all_read (k.decode_part bytes)

-- What the trait asks of an implementation, at the keys that `IsValid` admits: decoding undoes
-- encoding in front of any rest, and the encodings of two keys, each with a rest behind it,
-- compare as the keys do and, where these are equal, as the rests do.
pub record IsLawful {K : Type 0} (k : Key K) (cmp : K → K → Ordering) (IsValid : K → Type 0)
    : Type 0 where
  pub round_trip : (a : K) (r : Bytes) → IsValid a → k.decode_part (k.encode a ++ r) ≡ some (a, r)
  pub order :
      (a b : K) (r s : Bytes)
      → IsValid a
      → IsValid b
      → compare_bytes (k.encode a ++ r) (k.encode b ++ s) ≡ then_order (cmp a b) (compare_bytes r s)
  pub sized : (a : K) (n : ℕ) → IsValid a → k.size ≡ fixed n → length (k.encode a) ≡ n
  pub bytes : (a : K) → IsValid a → AreBytes (k.encode a)
  pub cmp_refl : (a : K) → cmp a a ≡ eq
  pub eq_of_cmp : (a b : K) → cmp a b ≡ eq → a ≡ b
  pub beq_iff : (a b : K) → (k.beq a b ≡ true) ↔ (a ≡ b)

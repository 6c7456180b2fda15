-- ===== src/Key/Enum.antt =====
-- macros.rs, `impl_enum_key!`: a C-like enum as the unsigned number that an arm gives to each
-- variant. The arms are the variants in their order, and the value of each.
use collette.Prelude.{
  ℕ, ◌^◌, ◌<◌, ◌≡◌, refl, ap, ◌↔◌, ◌⊎◌, inl, inr, compare, Bool, true, ◌==◌, Option, none, some,
  List, [], ◌∷◌, String, if◌then◌else◌, arith, Bool-cases,
}
use collette.Prelude.Orders.{compare_refl, eq_of_compare, ==_iff}
use collette.Bytes.{Bytes}
use collette.Key.{Key, fixed, IsLawful}
use collette.Key.Unsigned.{
  to_be_bytes, decode_unsigned, decode_unsigned-to_be_bytes, compare-to_be_bytes,
  length-to_be_bytes, to_be_bytes-AreBytes,
}

module _ {T : Type 0} (value : T → ℕ) where
  -- The `match` on the decoded number; `none` is the panic of its last arm.
  unfoldable pub variant_of : List T → ℕ → Option T
  variant_of [] n = none
  variant_of (v ∷ variants) n =
      let rest = variant_of variants n in if value v == n then some v else rest

  unfoldable pub decode_variant : List T → Option (ℕ × Bytes) → Option (T × Bytes)
  unfolding variant_of
  decode_variant variants none = none
  decode_variant variants (some (n, r)) = elim (variant_of variants n) [
    | none ↦ none
    | some v ↦ some (v, r)
  ]

  unfoldable pub enum_key : ℕ → List T → (T → T → Bool) → (T → String) → Key T
  unfolding decode_variant
  enum_key width variants beq debug = record {
    size = fixed width;
    encode = λ v. to_be_bytes width (value v);
    decode_part = λ bytes. decode_variant variants (decode_unsigned width bytes);
    beq = beq;
    debug = debug;
  }

  abbrev pub IsListed : List T → T → Type 0
  IsListed [] t = ⊥
  IsListed (v ∷ variants) t = (v ≡ t) ⊎ IsListed variants t

  module _ (width : ℕ) (variants : List T) (beq : T → T → Bool) (debug : T → String)
      (distinct : (s t : T) → value s ≡ value t → s ≡ t)
      (beq_iff : (s t : T) → (beq s t ≡ true) ↔ (s ≡ t)) where
    variant_of-value : (vs : List T) (t : T) → IsListed vs t → variant_of vs (value t) ≡ some t
    unfolding variant_of
    variant_of-value [] t h = absurd h
    variant_of-value (v ∷ vs) t (inl e) = rw (e, (==_iff (value t) (value t)).1 refl)
    variant_of-value (v ∷ vs) t (inr h) =
        elim (Bool-cases (value v == value t)) as (λ _. variant_of (v ∷ vs) (value t) ≡ some t) [
          | inl e ↦ rw e (ap (λ (x : T). some x) (distinct v t ((==_iff (value v) (value t)).0 e)))
          | inr e ↦ rw e (variant_of-value vs t h)
        ]

    -- The key of an enum is lawful for the order of the values, at the variants that have an arm
    -- and a value of the width, if different variants have different values and the test of
    -- variants is exact.
    pub enum_key-IsLawful :
        IsLawful
          (enum_key width variants beq debug)
          (λ s t. compare (value s) (value t))
          (λ t. IsListed variants t × (value t < 256 ^ width))
    unfolding enum_key
    enum_key-IsLawful = record {
      round_trip = λ t r v. rw (
        decode_unsigned-to_be_bytes width (value t) r v.1,
        decode_variant,
        variant_of-value variants t v.0,
      );
      order = λ s t r u v w. compare-to_be_bytes width (value s) (value t) r u v.1 w.1;
      sized = λ t n v e. ground (arith, length-to_be_bytes width (value t));
      bytes = λ t v. to_be_bytes-AreBytes width (value t);
      cmp_refl = λ t. compare_refl (value t);
      eq_of_cmp = λ s t e. distinct s t (eq_of_compare (value s) (value t) e);
      beq_iff = beq_iff;
    }

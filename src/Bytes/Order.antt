-- ===== src/Bytes/Order.antt =====
-- The laws of the lexicographic order on byte strings.
use collette.Prelude.{
  ℕ, ◌≡◌, refl, ◌↔◌, Ordering, lt, eq, gt, true, [], ◌∷◌, ◌++◌, arith, length, suc, zero, some,
}
use collette.Bytes.{Bytes, compare_bytes, split_at, ◌=ᵇ◌}

abbrev pub flip : Ordering → Ordering
flip lt = gt
flip eq = eq
flip gt = lt

pub compare_bytes_refl : (a : Bytes) → compare_bytes a a ≡ eq
unfolding compare_bytes
compare_bytes_refl [] = refl
compare_bytes_refl (x ∷ a) = ground (arith, compare_bytes_refl a)

pub eq_of_compare_bytes : (a b : Bytes) → compare_bytes a b ≡ eq → a ≡ b
unfolding compare_bytes
eq_of_compare_bytes [] [] h = refl
eq_of_compare_bytes [] (y ∷ b) h = cc
eq_of_compare_bytes (x ∷ a) [] h = cc
eq_of_compare_bytes (x ∷ a) (y ∷ b) h = ground (arith, eq_of_compare_bytes a b)

pub compare_bytes-flip : (a b : Bytes) → compare_bytes b a ≡ flip (compare_bytes a b)
unfolding compare_bytes
compare_bytes-flip [] [] = refl
compare_bytes-flip [] (y ∷ b) = refl
compare_bytes-flip (x ∷ a) [] = refl
compare_bytes-flip (x ∷ a) (y ∷ b) = ground (arith, compare_bytes-flip a b)

pub lt_bytes_trans :
    (a b c : Bytes) → compare_bytes a b ≡ lt → compare_bytes b c ≡ lt → compare_bytes a c ≡ lt
unfolding compare_bytes
lt_bytes_trans [] [] c h k = cc
lt_bytes_trans [] (y ∷ b) [] h k = cc
lt_bytes_trans [] (y ∷ b) (z ∷ c) h k = refl
lt_bytes_trans (x ∷ a) [] c h k = cc
lt_bytes_trans (x ∷ a) (y ∷ b) [] h k = cc
lt_bytes_trans (x ∷ a) (y ∷ b) (z ∷ c) h k = ground (arith, lt_bytes_trans a b c)

-- A shared beginning does not matter.
pub compare-append_left : (p a b : Bytes) → compare_bytes (p ++ a) (p ++ b) ≡ compare_bytes a b
unfolding compare_bytes
compare-append_left [] a b = refl
compare-append_left (x ∷ p) a b = ground (arith, compare-append_left p a b)

pub =ᵇ_iff : (a b : Bytes) → ((a =ᵇ b) ≡ true) ↔ (a ≡ b)
=ᵇ_iff a b =
    (λ h. eq_of_compare_bytes a b (ground arith), λ h. ground (arith, compare_bytes_refl a))

pub split_at-append : (n : ℕ) (a r : Bytes) → length a ≡ n → split_at n (a ++ r) ≡ some (a, r)
unfolding split_at
split_at-append zero [] r h = refl
split_at-append zero (x ∷ a) r h = absurd (omega arith)
split_at-append (suc n) [] r h = absurd (omega arith)
split_at-append (suc n) (x ∷ a) r h = ground (arith, split_at-append n a r)

-- ===== src/Key/Xor.antt =====
-- Exclusive or with the top bit of a word, as arithmetic.
use Prim.Native.Nat.{digits, bit_xor-bitwise, differ}
use native.Mathlib.Nat.{le_refl, pow-suc}
use collette.Prelude.{
  ℕ, zero, suc, ◌+◌, ◌-◌, ◌*◌, ◌/◌, ◌%◌, ◌^◌, ◌<◌, ◌≤◌, ◌≡◌, refl, bit_xor, ltb, if◌then◌else◌,
  arith,
}

module _ (z : ℕ → ℕ) (f : ℕ → ℕ → ℕ) where
  fuel_irrelevant : (m n a b : ℕ) → a ≤ m → a ≤ n → digits z f m a b ≡ digits z f n a b
  fuel_irrelevant zero zero a b h k = refl
  fuel_irrelevant zero (suc n) zero b h k = refl
  fuel_irrelevant zero (suc n) (suc a) b h k = absurd (omega arith)
  fuel_irrelevant (suc m) zero zero b h k = refl
  fuel_irrelevant (suc m) zero (suc a) b h k = absurd (omega arith)
  fuel_irrelevant (suc m) (suc n) zero b h k = refl
  fuel_irrelevant (suc m) (suc n) (suc a) b h k =
      rw (fuel_irrelevant m n (suc a / 2) (b / 2) (omega arith) (omega arith))

-- One binary digit.
bit_xor_step : (a b : ℕ) → bit_xor a b ≡ bit_xor (a / 2) (b / 2) * 2 + differ (a % 2) (b % 2)
bit_xor_step zero b = simp bit_xor-bitwise (omega arith)
bit_xor_step (suc a) b = simp bit_xor-bitwise (
    omega (
      arith,
      fuel_irrelevant (λ b. b) differ a (suc a / 2) (suc a / 2) (b / 2) (omega arith) (le_refl _),
    ))

differ-zero : (r : ℕ) → differ r 0 ≡ r
differ-zero zero = refl
differ-zero (suc r) = refl

bit_xor_even : (x t u : ℕ) → t ≡ u * 2 → bit_xor x t ≡ bit_xor (x / 2) u * 2 + x % 2
bit_xor_even x t u e =
    let half : t / 2 ≡ u = omega arith in
    let even : t % 2 ≡ 0 = omega arith in rw (bit_xor_step x t, half, even, differ-zero)

-- Flipping the top bit of a word of `suc k` bits.
pub bit_xor_top :
    (k x : ℕ) → x < 2 ^ suc k → bit_xor x (2 ^ k) ≡ (if ltb x (2 ^ k) then x + 2 ^ k else x - 2 ^ k)
bit_xor_top zero zero h = refl
bit_xor_top zero (suc zero) h = refl
bit_xor_top zero (suc (suc x)) h = absurd (omega arith)
bit_xor_top (suc k) x h = ground (
  arith,
  pow-suc 2 k,
  pow-suc 2 (suc k),
  bit_xor_even x (2 ^ suc k) (2 ^ k) (pow-suc 2 k),
  bit_xor_top k (x / 2) (omega (arith, pow-suc 2 k, pow-suc 2 (suc k))),
)

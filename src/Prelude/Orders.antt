-- ===== src/Prelude/Orders.antt =====
-- Laws of `compare` on the native numbers and of the lexicographic combination.
use collette.Prelude.{
  ℕ, ◌≡◌, refl, ◌↔◌, Ordering, lt, eq, gt, compare, then_order, true, ◌==◌, arith, ◌&&◌, Bool,
}

pub then_order_assoc :
    (a b c : Ordering) → then_order (then_order a b) c ≡ then_order a (then_order b c)
then_order_assoc lt b c = refl
then_order_assoc eq b c = refl
then_order_assoc gt b c = refl

pub compare_refl : (a : ℕ) → compare a a ≡ eq
compare_refl a = ground arith

pub eq_of_compare : (a b : ℕ) → compare a b ≡ eq → a ≡ b
eq_of_compare a b h = ground arith

pub ==_iff : (a b : ℕ) → ((a == b) ≡ true) ↔ (a ≡ b)
==_iff a b = ground arith

-- The order of pairs from the orders of their components.
module _ {A B : Type 0} (cmp_a : A → A → Ordering) (cmp_b : B → B → Ordering) where
  abbrev pub lex : A × B → A × B → Ordering
  lex p q = then_order (cmp_a p.0 q.0) (cmp_b p.1 q.1)

module _ {A B : Type 0} {beq_a : A → A → Bool} {beq_b : B → B → Bool}
    (iff_a : (x y : A) → (beq_a x y ≡ true) ↔ (x ≡ y))
    (iff_b : (x y : B) → (beq_b x y ≡ true) ↔ (x ≡ y)) where
  pub pair_beq_iff : (p q : A × B) → ((beq_a p.0 q.0 && beq_b p.1 q.1) ≡ true) ↔ (p ≡ q)
  pair_beq_iff (a, b) (c, d) = ground (arith, iff_a a c, iff_b b d)

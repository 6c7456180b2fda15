-- ===== src/Bytes.antt =====
-- Byte strings (`Vec<u8>`, `&[u8]`, `IVec` of inline_vec.rs) and their lexicographic order, the
-- order of the standard library on slices.
pub mod Order
use collette.Prelude.{
  ℕ, suc, zero, ◌<◌, Ordering, lt, eq, gt, compare, then_order, Bool, true, false, Option, none,
  some, List, [], ◌∷◌, All,
}

abbrev pub Bytes : Type 0
Bytes = List ℕ

abbrev pub IsByte : ℕ → Type 0
IsByte b = b < 256

abbrev pub AreBytes : Bytes → Type 0
AreBytes = All IsByte

unfoldable pub compare_bytes : Bytes → Bytes → Ordering
compare_bytes [] [] = eq
compare_bytes [] (b ∷ bs) = lt
compare_bytes (a ∷ as') [] = gt
compare_bytes (a ∷ as') (b ∷ bs) = then_order (compare a b) (compare_bytes as' bs)

-- `slice::split_at`; `none` is its panic.
unfoldable pub split_at : ℕ → Bytes → Option (Bytes × Bytes)
split_at zero bs = some ([], bs)
split_at (suc n) [] = none
split_at (suc n) (b ∷ bs) = elim (split_at n bs) [
  | none ↦ none
  | some (left, right) ↦ some (b ∷ left, right)
]

infix 50 ◌=ᵇ◌
abbrev pub ◌=ᵇ◌ : Bytes → Bytes → Bool
a =ᵇ b = elim (compare_bytes a b) [ eq ↦ true | _ ↦ false ]

-- ===== src/Map.antt =====
-- `BTreeMap<Vec<u8>, V>` of the standard library: an association list in ascending order of the
-- keys. Names (`&'static str`) are byte strings too.
pub mod Laws
pub mod Members
use collette.Prelude.{lt, eq, gt, Bool, true, Option, none, some, List, [], ◌∷◌, if◌then◌else◌}
use collette.Bytes.{Bytes, compare_bytes}
use collette.Range.{Range, included, excluded, unbounded, is_lt, is_le, contains}

abbrev pub Map {ℓ} : Type ℓ → Type ℓ
Map V = List (Bytes × V)

module _ {ℓ} {V : Type ℓ} where
  unfoldable pub get : Map V → Bytes → Option V
  get [] k = none
  get ((j, v) ∷ m) k = elim (compare_bytes k j) [ eq ↦ some v | _ ↦ get m k ]

  unfoldable pub insert : Map V → Bytes → V → Map V
  insert [] k v = (k, v) ∷ []
  insert ((j, w) ∷ m) k v = elim (compare_bytes k j) [
    | lt ↦ (k, v) ∷ (j, w) ∷ m
    | eq ↦ (k, v) ∷ m
    | gt ↦ (j, w) ∷ insert m k v
  ]

  unfoldable pub remove : Map V → Bytes → Map V
  remove [] k = []
  remove ((j, w) ∷ m) k = elim (compare_bytes k j) [ eq ↦ remove m k | _ ↦ (j, w) ∷ remove m k ]

  unfoldable pub filter_keys : (Bytes → Bool) → Map V → Map V
  filter_keys p [] = []
  filter_keys p ((j, w) ∷ m) = let rest = filter_keys p m in if p j then (j, w) ∷ rest else rest

-- The ranges at which `BTreeMap::range` does not panic: the start is not behind the end, and
-- they are not the same excluded key.
abbrev pub is_range : Range Bytes → Bool
is_range (included s, included e) = is_le (compare_bytes s e)
is_range (included s, excluded e) = is_le (compare_bytes s e)
is_range (excluded s, included e) = is_le (compare_bytes s e)
is_range (excluded s, excluded e) = is_lt (compare_bytes s e)
is_range (included s, unbounded) = true
is_range (excluded s, unbounded) = true
is_range (unbounded, e) = true

-- `BTreeMap::range`; `none` is a panic.
unfoldable pub range {ℓ} : {V : Type ℓ} → Map V → Range Bytes → Option (Map V)
unfolding filter_keys
range m r = if is_range r then some (filter_keys (contains compare_bytes r) m) else none

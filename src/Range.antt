-- ===== src/Range.antt =====
-- `std::ops::Bound` and `RangeBounds`: ranges with optional ends, and what they contain under a
-- given order.
use collette.Prelude.{Ordering, lt, eq, gt, Bool, true, false, ◌&&◌}

pub data Bound {ℓ} (A : Type ℓ) : Type ℓ where
  included : A → Bound A
  excluded : A → Bound A
  unbounded : Bound A

abbrev pub Range {ℓ} : Type ℓ → Type ℓ
Range A = Bound A × Bound A

-- `Bound::map`
abbrev pub map_bound {ℓ κ} : {A : Type ℓ} {B : Type κ} → (A → B) → Bound A → Bound B
map_bound f (included a) = included (f a)
map_bound f (excluded a) = excluded (f a)
map_bound f unbounded = unbounded

abbrev pub is_lt : Ordering → Bool
is_lt lt = true
is_lt eq = false
is_lt gt = false

abbrev pub is_le : Ordering → Bool
is_le lt = true
is_le eq = true
is_le gt = false

abbrev pub is_eq : Ordering → Bool
is_eq lt = false
is_eq eq = true
is_eq gt = false

module _ {ℓ} {A : Type ℓ} (cmp : A → A → Ordering) where
  abbrev pub after_start : Bound A → A → Bool
  after_start (included s) a = is_le (cmp s a)
  after_start (excluded s) a = is_lt (cmp s a)
  after_start unbounded a = true

  abbrev pub before_end : Bound A → A → Bool
  before_end (included e) a = is_le (cmp a e)
  before_end (excluded e) a = is_lt (cmp a e)
  before_end unbounded a = true

  -- `RangeBounds::contains`
  abbrev pub contains : Range A → A → Bool
  contains (start, end) a = after_start start a && before_end end a

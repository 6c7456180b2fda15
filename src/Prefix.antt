-- ===== src/Prefix.antt =====
-- prefix.rs: the end of the range of all byte strings with a given prefix, and keys that are
-- composed of a prefix and a suffix.
pub mod Successor
use collette.Prelude.{ℕ, zero, suc, ◌+◌, [], ◌∷◌, ◌==◌, if◌then◌else◌, length}
use collette.Bytes.{Bytes}
use collette.Range.{Bound, excluded, unbounded}

-- `bytes[i]`; the loop below stays inside.
abbrev byte_at : Bytes → ℕ → ℕ
byte_at [] i = 0xff
byte_at (b ∷ bs) zero = b
byte_at (b ∷ bs) (suc i) = byte_at bs i

-- `bytes[i] += 1; bytes.truncate(i + 1)`
abbrev bump_at : Bytes → ℕ → Bytes
bump_at [] i = []
bump_at (b ∷ bs) zero = (b + 1) ∷ []
bump_at (b ∷ bs) (suc i) = b ∷ bump_at bs i

-- The loop over `(0..n).rev()`.
unfoldable pub prefix_end_loop : ℕ → Bytes → Bound Bytes
prefix_end_loop zero bytes = unbounded
prefix_end_loop (suc i) bytes =
    let earlier = prefix_end_loop i bytes in
    if byte_at bytes i == 0xff then earlier else excluded (bump_at bytes i)

unfoldable pub prefix_end : Bytes → Bound Bytes
unfolding prefix_end_loop
prefix_end bytes = prefix_end_loop (length bytes) bytes

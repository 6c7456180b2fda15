-- ===== src/Examples/Reads.antt =====
-- Look-ups after a save and after a removal.
use collette.Prelude.{ℕ, ◌≡◌, ◌≢◌, refl, some, none, [], arith}
use collette.Bytes.{compare_bytes}
use collette.Outcome.{ok}
use collette.Map
use collette.Memory.{memory}
use collette.Collection.{get}
use collette.Collection.InMemory.{IsPrepared, IsPrepared-IsReady}
use collette.Memory.Available.{memory_available}
use collette.Memory.Contract.{memory_law}
use collette.Collection.Available.Reads.{save-get, remove-get}
use collette.Examples.Collections.{groups}
use collette.Examples.Consistency.{
  one, moved, holding, IsByteKey, byte_key-IsLawful, distinct, codec, saved, removed,
}
use collette.Examples.InMemory.{to_bytes_returns, two_bytes_returns}

one-IsPrepared : IsPrepared groups one
unfolding Map.get compare_bytes
one-IsPrepared = record { state = _; there = refl; main = (_, refl); indexed = ((_, refl), tt) }

save-get_example :
    (get memory groups moved 2 ≡ ok (some (2, 6)))
    × ((pk : ℕ) → IsByteKey pk → pk ≢ 2 → get memory groups moved pk ≡ get memory groups one pk)
save-get_example =
    save-get memory memory_law memory_available groups byte_key-IsLawful distinct to_bytes_returns
      two_bytes_returns one moved (IsPrepared-IsReady groups one one-IsPrepared) codec (2, 6)
      (omega arith) saved

remove-get_example :
    (get memory groups (holding [] []) 2 ≡ ok none)
    × ((pk : ℕ)
        → IsByteKey pk
        → pk ≢ 2
        → get memory groups (holding [] []) pk ≡ get memory groups one pk)
remove-get_example =
    remove-get memory memory_law memory_available groups byte_key-IsLawful distinct to_bytes_returns
      two_bytes_returns one (holding [] []) (IsPrepared-IsReady groups one one-IsPrepared) 2
      (omega arith) removed

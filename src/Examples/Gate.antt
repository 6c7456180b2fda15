-- ===== src/Examples/Gate.antt =====
-- Two writers at the gate of a namespace.
use collette.Prelude.{ℕ, ◌≡◌, ◌↔◌, refl, some, [], ◌∷◌, true, false}
use collette.Bytes.{compare_bytes}
use collette.Outcome.{ok}
use collette.Map
use collette.Memory.{NamespacedStores, Namespaces, WriteHandle, write}
use collette.Memory.Gate.{
  Shared, idle, waiting, working, write_alone, has_permit, start, acquire, snapshot, arrive,
  take_snapshot, Run, here, next,
}
use collette.Memory.Gate.Sound.{permit_unique}
use collette.Memory.Gate.Writing.{write-returns}
use collette.Memory.Gate.Progress.{CanEnter, waiting-CanEnter}

abbrev stores : NamespacedStores
stores = (0x67 ∷ [], []) ∷ []

-- Thread 1 has a handle, and thread 2 waits.
abbrev first : Shared
first = acquire (start stores) 1

abbrev second : Shared
second = snapshot first 1

abbrev third : Shared
third = acquire second 2

run : Run (start stores) third
unfolding start acquire snapshot
run = next _ first _ (arrive _ _ 1 refl refl) (
    next _ second _ (take_snapshot _ _ 1 refl refl)
      (next _ third _ (arrive _ _ 2 refl refl) (here _)))

second_waits : third.phase 2 ≡ waiting
unfolding start acquire snapshot
second_waits = refl

first_permit : has_permit (third.phase 1) ≡ true
unfolding start acquire snapshot
first_permit = refl

permit_unique_example : ◌≡◌ {A = ℕ} 1 1
permit_unique_example = permit_unique stores third run 1 1 first_permit first_permit

waiting-CanEnter_example : CanEnter third 2
waiting-CanEnter_example = waiting-CanEnter stores third run 2 second_waits

-- Thread 2 calls `write` while thread 1 has a handle.
until_second : Run (start stores) second
unfolding start acquire snapshot
until_second =
    next _ first _ (arrive _ _ 1 refl refl)
      (next _ second _ (take_snapshot _ _ 1 refl refl) (here _))

second_idle : second.phase 2 ≡ idle
unfolding start acquire snapshot
second_idle = refl

abbrev db : Namespaces
db = (0x72 ∷ [], record { stores = stores }) ∷ []

db_held : Map.get db (0x72 ∷ []) ≡ some (record { stores = second.stores })
unfolding start acquire snapshot Map.get compare_bytes
db_held = refl

write-returns_example :
    (((g' : Shared) × (w : WriteHandle) × (write_alone second 2 ≡ some g')
        × (write db (0x72 ∷ []) ≡ ok w)
        × (g'.phase 2 ≡ working second.stores w.staged))
      ↔ ((k : ℕ) → has_permit (second.phase k) ≡ false))
    × (((acquire second 2).phase 2 ≡ waiting) ↔ ((k : ℕ) × (has_permit (second.phase k) ≡ true)))
write-returns_example =
    write-returns stores second until_second 2 second_idle db (0x72 ∷ []) db_held

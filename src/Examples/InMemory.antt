-- ===== src/Examples/InMemory.antt =====
-- A built collection over the memory backend, and its methods on it.
use collette.Prelude.{ℕ, ◌≡◌, ◌≢◌, refl, [], ◌∷◌}
use collette.Bytes.{Bytes, compare_bytes}
use collette.Outcome.{ok, panic}
use collette.Map
use collette.Memory.{memory, Namespaces}
use collette.Memory.Contract.{stored}
use collette.Collection.{build, insert, save, remove}
use collette.Collection.Spec.{spec_insert, spec_save, spec_remove}
use collette.Collection.Runs.{shown_as}
use collette.Memory.Available.{memory_available}
use collette.Memory.Contract.{memory_law}
use collette.Collection.Available.Methods.{IsReady, shown-insert, shown-save, shown-remove}
use collette.Collection.Available.Build.{build-IsReady}
use collette.Collection.InMemory.{IsPrepared, IsPrepared-IsReady}
use collette.Store.{Contents}
use collette.Examples.Collections.{two_bytes, groups, db}

pub two_bytes_returns : (bytes : Bytes) → two_bytes bytes ≢ panic
two_bytes_returns [] h = cc
two_bytes_returns (a ∷ []) h = cc
two_bytes_returns (a ∷ b ∷ []) h = cc
two_bytes_returns (a ∷ b ∷ x ∷ bytes) h = cc

pub to_bytes_returns : (r : ℕ × ℕ) → groups.item.to_bytes r ≢ panic
to_bytes_returns r h = cc

prepared : IsPrepared groups db
unfolding Map.get compare_bytes
prepared = record { state = _; there = refl; main = (_, refl); indexed = ((_, refl), tt) }

ready : IsReady memory memory_available groups db
ready = IsPrepared-IsReady groups db prepared

abbrev group_contents : Namespaces → Contents
group_contents d = stored d groups.name

build-IsReady_example :
    (db' : Namespaces) × (build memory groups db ≡ ok db')
    × IsReady memory memory_available groups db'
build-IsReady_example = build-IsReady memory memory_available groups db

shown-insert_example :
    shown_as group_contents (insert memory groups db (2, 5))
    ≡ spec_insert groups (group_contents db) (2, 5)
unfolding memory_law
shown-insert_example =
    shown-insert memory memory_available groups to_bytes_returns two_bytes_returns db ready
      memory_law (2, 5)

shown-save_example :
    shown_as group_contents (save memory groups db (3, 6))
    ≡ spec_save groups (group_contents db) (3, 6)
unfolding memory_law
shown-save_example =
    shown-save memory memory_available groups to_bytes_returns two_bytes_returns db ready memory_law
      (3, 6)

shown-remove_example :
    shown_as group_contents (remove memory groups db 1) ≡ spec_remove groups (group_contents db) 1
unfolding memory_law
shown-remove_example =
    shown-remove memory memory_available groups to_bytes_returns two_bytes_returns db ready
      memory_law 1

-- ===== src/Examples/Sessions.antt =====
-- Sessions of a collection over the memory backend.
use collette.Prelude.{ℕ, ap, ◌∙◌, ◌≡◌, refl, none, List, [], ◌∷◌, arith, All, compare, map}
use collette.Outcome.{ok}
use collette.Range.{contains}
use collette.Bounds.{exact_encoder}
use collette.Map
use collette.Store.{right_to_left}
use collette.Memory.{memory, Namespaces, new}
use collette.Memory.Contract.{memory_law, stored}
use collette.Collection.{main_store, build}
use collette.Collection.Consistent.{IsConsistent}
use collette.Collection.Runs.{shown_as}
use collette.Collection.Session.{
  Command, inserting, updating, saving, removing, IsValidCommand, session, perform, go_on,
  session-IsConsistent,
}
use collette.Collection.Session.Sound.{session-IsSound}
use collette.Collection.InMemory.{IsSoundInMemory}
use collette.Memory.Available.{memory_available}
use collette.Memory.Listing.{memory_listing}
use collette.Collection.Session.Specified.{spec_session, session-specified}
use collette.Collection.InMemory.Sessions.{nothing, fresh_session-scan-ListsRecords}
use collette.Scan.{Scan, directed, range}
use collette.Scan.Open
use collette.Scan.Open.{Entry, ScanExecutor, CollectionIterator, next_stored, open_collection, iter}
use collette.Scan.Records.{Drains, ListsRecords}
use collette.Scan.Records.Primary.{StoredIn, place}
use collette.Examples.Collections.{groups, grouped, byte_key}
use collette.Examples.Consistency.{
  one, holding, inserted, inserted_second, empty-Consistent, two, IsByteKey, byte_key-IsLawful,
  distinct, tests, codec,
}
use collette.Examples.InMemory.{to_bytes_returns, two_bytes_returns}
use collette.Examples.Records.{numbers, numbers-is_range, two-IsSound}

-- A refused insert, an update, the removal of a record and of one that is not there, and a save.
abbrev pub calls : List (Command (ℕ × ℕ) ℕ)
calls =
    inserting (2, 5)
    ∷ inserting (2, 7)
    ∷ updating (2, 6)
    ∷ removing 1
    ∷ removing 9
    ∷ saving (4, 6)
    ∷ []

pub calls-valid : All (IsValidCommand groups IsByteKey) calls
calls-valid = (omega arith, (omega arith, (omega arith, (tt, (tt, (omega arith, tt))))))

session-IsSound_example :
    (db' : Namespaces) × (session memory groups two calls ≡ ok db')
    × IsSoundInMemory groups IsByteKey db'
session-IsSound_example =
    session-IsSound memory memory_law memory_available memory_listing groups byte_key-IsLawful
      distinct tests codec to_bytes_returns two_bytes_returns two calls two-IsSound calls-valid

session-specified_example :
    shown_as (λ d. stored d groups.name) (session memory groups two calls)
    ≡ ok (spec_session groups (stored two groups.name) calls)
unfolding memory_law
session-specified_example =
    session-specified memory memory_law memory_available memory_listing groups byte_key-IsLawful
      distinct tests codec to_bytes_returns two_bytes_returns two calls two-IsSound calls-valid

new-fresh : Map.get new groups.name ≡ none
unfolding new Map.get
new-fresh = refl

fresh_session-scan-ListsRecords_example :
    (built : Namespaces) × (left : Namespaces) × (build memory groups new ≡ ok built)
    × (session memory groups built calls ≡ ok left)
    × (s : Scan (ScanExecutor memory grouped) ℕ) × (it : CollectionIterator memory grouped)
    × (found : List (Entry (ℕ × ℕ))) × (Open.scan memory groups left ≡ ok s)
    × (iter memory grouped byte_key
          (open_collection memory grouped)
          (directed right_to_left (range (exact_encoder byte_key) numbers s))
        ≡ ok it)
    × Drains (next_stored memory grouped) it (map ok found)
    × ListsRecords
        (StoredIn groups (spec_session groups nothing calls main_store))
        (place groups)
        (λ x. contains compare numbers x.0)
        right_to_left
        found
unfolding new
fresh_session-scan-ListsRecords_example =
    fresh_session-scan-ListsRecords groups byte_key-IsLawful distinct tests codec to_bytes_returns
      two_bytes_returns new new-fresh tt calls calls-valid numbers (omega arith) (omega arith)
      numbers-is_range byte_key right_to_left

session_of_two :
    session memory groups (holding [] []) (inserting (2, 5) ∷ inserting (1, 5) ∷ []) ≡ ok two
unfolding session perform
session_of_two =
    ap (go_on memory groups (holding [] []) (inserting (1, 5) ∷ [])) inserted
    ∙ ap (go_on memory groups one []) inserted_second

session-IsConsistent_example : IsConsistent groups IsByteKey (memory_law.stored two groups.name)
session-IsConsistent_example =
    session-IsConsistent groups byte_key-IsLawful distinct tests codec memory memory_law
      (holding [] []) two (inserting (2, 5) ∷ inserting (1, 5) ∷ []) empty-Consistent
      (omega arith, (omega arith, tt)) session_of_two

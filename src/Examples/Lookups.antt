-- ===== src/Examples/Lookups.antt =====
-- A look-up by a unique index.
use collette.Prelude.{ℕ, ◌≡◌, ◌↔◌, refl, ap, sym, ◌∙◌, Option, some, [], ◌∷◌, arith, All}
use mathlib.Core.List.{Memᴰ}
use mathlib.Core.Path.{subst}
use collette.Bytes.{Bytes, compare_bytes}
use collette.Outcome.{ok, ok_injective}
use collette.Key.Unsigned.{to_be_bytes, unsigned_key}
use collette.Index.{unique, update_indexes, update_index, write_entry, write_if_free}
use collette.Map
use collette.Map.Members.{get-Mem}
use collette.Store.{Content}
use collette.Memory
use collette.Memory.{memory, Namespaces, write, open_write, close, commit, set}
use collette.Memory.Contract.{memory_law, stored}
use collette.Collection.{main_store, insert, insert_found, write_record}
use collette.Collection.InMemory.{IsPrepared, IsPrepared-IsReady}
use collette.Memory.Available.{memory_available}
use collette.Collection.Consistent.{IsConsistent, Distinct, TestsKeys}
use collette.Collection.Consistent.IndexStep.{none_ne_some}
use collette.Collection.Consistent.Methods.{insert-IsConsistent}
use collette.Scan.{full}
use collette.Scan.Open.{ScanExecutor, index_scan, get_by_index}
use collette.Scan.Records.Primary.{StoredIn, place}
use collette.Scan.Records.Unique.{get_by_index-found}
use collette.Examples.Collections.{grouped, two_bytes}
use collette.Examples.Consistency.{IsByteKey, byte_key-IsLawful, codec}
use collette.Examples.Scans.{by_code, coded}

-- The database with the given entries of the records and of the index.
abbrev coded_db : Map.Map Bytes → Map.Map Bytes → Namespaces
coded_db records entries =
    (0x72 ∷ [], record { stores = (main_store, records) ∷ (0x63 ∷ [], entries) ∷ [] }) ∷ []

abbrev CodedConsistent : Namespaces → Type 0
CodedConsistent d = IsConsistent coded IsByteKey (memory_law.stored d coded.name)

empty-Consistent : CodedConsistent (coded_db [] [])
unfolding memory_law Map.get compare_bytes
empty-Consistent = record {
  keyed = λ kb bytes e. absurd (none_ne_some e);
  indexed = (
    record {
      complete = λ kb r h. absurd (none_ne_some h.there);
      sound = λ sk kb e. absurd (none_ne_some e);
    },
    tt,
  );
}

coded-Distinct : Distinct coded.indexes
coded-Distinct = (λ e. cc, tt, tt)

coded-TestsKeys : All TestsKeys coded.indexes
coded-TestsKeys = (λ a b. (byte_key-IsLawful.beq_iff a b).0, tt)

-- The record (3, 7) is stored.
abbrev one_coded : Namespaces
one_coded = coded_db ((3 ∷ [], 3 ∷ 7 ∷ []) ∷ []) ((7 ∷ [], 3 ∷ []) ∷ [])

inserted : insert memory coded (coded_db [] []) (3, 7) ≡ ok one_coded
unfolding insert insert_found write_record update_indexes update_index write_entry write_if_free
    write open_write Memory.get set close commit Map.get Map.insert compare_bytes to_be_bytes
    unsigned_key unique
inserted = refl

one_coded-Consistent : IsConsistent coded IsByteKey (stored one_coded coded.name)
unfolding memory_law
one_coded-Consistent =
    insert-IsConsistent coded byte_key-IsLawful coded-Distinct coded-TestsKeys codec memory
      memory_law (coded_db [] []) one_coded empty-Consistent (3, 7) (omega arith) inserted

one_coded-IsPrepared : IsPrepared coded one_coded
unfolding Map.get compare_bytes
one_coded-IsPrepared = record {
  state = _;
  there = refl;
  main = (_, refl);
  indexed = ((_, refl), tt);
}

abbrev records : Map.Map Bytes
records = (3 ∷ [], 3 ∷ 7 ∷ []) ∷ []

held : stored one_coded coded.name main_store ≡ Map.get records
unfolding Map.get compare_bytes
held = refl

code_of :
    (kb bytes : Bytes) (r : ℕ × ℕ)
    → Memᴰ (kb, bytes) records
    → two_bytes bytes ≡ ok r
    → IsByteKey r.1
code_of kb bytes r (Memᴰ.head e) d =
    let p : (3, 7) ≡ r =
      ok_injective (ap two_bytes (sym (ap (λ (x : Bytes × Bytes). x.1) e)) ∙ d) in
    subst (λ (x : ℕ × ℕ). IsByteKey x.1) p (omega arith)
code_of kb bytes r (Memᴰ.tail i) d = elim i [ ]

valid : (r : ℕ × ℕ) → StoredIn coded (stored one_coded coded.name main_store) r → IsByteKey r.1
valid r h =
    code_of (place coded r) h.bytes r
      (get-Mem records (place coded r)
        (sym (ap (λ (m : Content). m (place coded r)) held) ∙ h.there))
      h.decodes

get_by_index-found_example :
    (x : ScanExecutor memory grouped) × (found : Option (ℕ × ℕ)) × (index_scan memory coded {P = ℕ}
        by_code one_coded
      ≡ ok (full x))
    × (get_by_index memory coded by_code x 7 ≡ ok found)
    × ((r : ℕ × ℕ)
        → (found ≡ some r)
          ↔ (StoredIn coded (stored one_coded coded.name main_store) r × (r.1 ≡ 7)))
unfolding unique memory_law
get_by_index-found_example =
    get_by_index-found memory memory_law memory_available coded one_coded
      (IsPrepared-IsReady coded one_coded one_coded-IsPrepared) one_coded-Consistent by_code
      (Memᴰ.head refl) (λ k pk. refl) byte_key-IsLawful valid 7 (omega arith)

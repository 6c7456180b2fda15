-- ===== src/Examples/Consistency.antt =====
-- A collection with an index that stays consistent.
use collette.Prelude.{ℕ, ◌≡◌, refl, ◌^◌, ◌<◌, [], ◌∷◌, arith, All, compare}
use mathlib.Core.Path.{subst}
use collette.Bytes.{Bytes, compare_bytes}
use collette.Outcome.{ok}
use collette.Key
use collette.Key.Unsigned.{to_be_bytes, unsigned_key, unsigned_key-IsLawful}
use collette.Key.Tuple.{pair_key, pair_key-IsLawful}
use collette.Index.{
  multi, append_to_one, update_indexes, update_index, write_entry, write_if_free, remove_entries,
  remove_entry,
}
use collette.Map
use collette.Memory
use collette.Memory.{memory, Namespaces, read, write, open_write, close, commit, set}
use collette.Memory.Contract.{memory_law}
use collette.Collection
use collette.Collection.{
  main_store, insert, insert_found, write_record, update, update_found, save, find_record,
  decode_record, remove_found,
}
use collette.Collection.Consistent.{IsConsistent, Distinct, TestsKeys}
use collette.Collection.Consistent.IndexStep.{none_ne_some}
use collette.Collection.Consistent.Methods.{insert-IsConsistent}
use collette.Examples.Collections.{two_bytes, groups, byte_key}

abbrev pub IsByteKey : ℕ → Type 0
IsByteKey v = v < 256 ^ 1

pub byte_key-IsLawful : Key.IsLawful byte_key compare IsByteKey
byte_key-IsLawful = unsigned_key-IsLawful 1 (λ _. "")

pub distinct : Distinct groups.indexes
distinct = (λ e. cc, tt, tt)

pub tests : All TestsKeys groups.indexes
tests =
    (λ a b. ((pair_key-IsLawful byte_key-IsLawful byte_key-IsLawful (λ _. "")).beq_iff a b).0, tt)

pub codec :
    (r : ℕ × ℕ) (bytes : Bytes)
    → groups.item.to_bytes r ≡ ok bytes
    → groups.item.from_bytes bytes ≡ ok r
codec r bytes e = let q : r.0 ∷ r.1 ∷ [] ≡ bytes = cc in subst (λ b. two_bytes b ≡ ok r) q refl

-- The database with the given entries of the two stores.
abbrev pub holding : Map.Map Bytes → Map.Map Bytes → Namespaces
holding records entries =
    (0x72 ∷ [], record { stores = (main_store, records) ∷ (0x67 ∷ [], entries) ∷ [] }) ∷ []

abbrev pub Consistent : Namespaces → Type 0
Consistent d = IsConsistent groups IsByteKey (memory_law.stored d groups.name)

pub empty-Consistent : Consistent (holding [] [])
unfolding memory_law Map.get compare_bytes
empty-Consistent = record {
  keyed = λ kb bytes e. absurd (none_ne_some e);
  indexed = (
    record {
      complete = λ kb r h. absurd (none_ne_some h.there);
      sound = λ sk kb e. absurd (none_ne_some e);
    },
    tt,
  );
}

abbrev pub one : Namespaces
one = holding ((2 ∷ [], 2 ∷ 5 ∷ []) ∷ []) ((5 ∷ 2 ∷ [], 2 ∷ []) ∷ [])

pub inserted : insert memory groups (holding [] []) (2, 5) ≡ ok one
unfolding insert insert_found write_record update_indexes update_index write_entry write_if_free
    write open_write Memory.get set close commit Map.get Map.insert compare_bytes to_be_bytes
    unsigned_key pair_key multi append_to_one
inserted = refl

one-Consistent : Consistent one
one-Consistent =
    insert-IsConsistent groups byte_key-IsLawful distinct tests codec memory memory_law
      (holding [] []) one empty-Consistent (2, 5) (omega arith) inserted

-- A second record, of the same group.
abbrev pub two : Namespaces
two =
    holding ((1 ∷ [], 1 ∷ 5 ∷ []) ∷ (2 ∷ [], 2 ∷ 5 ∷ []) ∷ [])
      ((5 ∷ 1 ∷ [], 1 ∷ []) ∷ (5 ∷ 2 ∷ [], 2 ∷ []) ∷ [])

pub inserted_second : insert memory groups one (1, 5) ≡ ok two
unfolding insert insert_found write_record update_indexes update_index write_entry write_if_free
    write open_write Memory.get set close commit Map.get Map.insert compare_bytes to_be_bytes
    unsigned_key pair_key multi append_to_one
inserted_second = refl

pub two-Consistent : Consistent two
two-Consistent =
    insert-IsConsistent groups byte_key-IsLawful distinct tests codec memory memory_law one two
      one-Consistent (1, 5) (omega arith) inserted_second

abbrev pub moved : Namespaces
moved = holding ((2 ∷ [], 2 ∷ 6 ∷ []) ∷ []) ((6 ∷ 2 ∷ [], 2 ∷ []) ∷ [])

pub saved : save memory groups one (2, 6) ≡ ok moved
unfolding save find_record decode_record write_record update_indexes update_index write_entry
    write_if_free write open_write Memory.get Memory.remove set close commit Map.get Map.insert
    Map.remove compare_bytes to_be_bytes unsigned_key pair_key multi append_to_one
saved = refl

pub removed : Collection.remove memory groups one 2 ≡ ok (holding [] [])
unfolding Collection.remove remove_found find_record decode_record remove_entries remove_entry write
    open_write Memory.get Memory.remove set close commit Map.get Map.insert Map.remove compare_bytes
    to_be_bytes unsigned_key pair_key multi append_to_one
removed = refl

-- ===== src/Examples/Records.antt =====
-- Scans of a collection of two records, by number and by group.
use collette.Prelude.{
  true, ℕ, ◌≡◌, ◌≢◌, refl, sym, ap, ◌∙◌, List, [], ◌∷◌, arith, compare, map, String,
}
use mathlib.Core.List.{Memᴰ}
use collette.Bytes.{Bytes, compare_bytes}
use collette.Outcome.{ok, ok_injective}
use collette.Range.{Range, included, excluded, unbounded, contains}
use collette.Key.Unsigned.{to_be_bytes, unsigned_key}
use collette.Key.Tuple.{pair_key}
use collette.Index.{multi, append_to_one}
use collette.Bounds.{encode_range, exact_encoder, prefix_encoder}
use collette.Map
use collette.Map.Members.{get-Mem}
use mathlib.Core.Path.{subst}
use collette.Store.{Content, right_to_left, left_to_right}
use collette.Store.Listing.{all_ok}
use collette.Memory
use collette.Memory.{memory, read, open_read, in_direction}
use collette.Memory.Contract.{memory_law}
use collette.Memory.Listing.{memory_listing, SortedNamespaces}
use collette.Scan.Records.Available.{ready_scan-ListsRecords, ready_index_scan-ListsRecords}
use collette.Memory.Available.{memory_available}
use collette.Collection.InMemory.{IsSoundInMemory, IsPrepared-IsReady}
use collette.Collection.InMemory.{IsPrepared}
use collette.Map.{is_range}
use collette.Collection.{main_store}
use collette.Scan.{Scan, full, directed, range, compile}
use collette.Scan.Open
use collette.Scan.Open.{
  Entry, ScanExecutor, CollectionIterator, IndexIterator, next_stored, next_indexed,
  open_collection, open_index, iter, index_scan,
}
use collette.Scan.Records.{Drains, ListsRecords}
use collette.Scan.Records.Primary.{StoredIn, place}
use collette.Scan.Records.Secondary.{index_place, multi-fits}
use collette.Examples.Collections.{groups, grouped, by_group, byte_key, two_bytes}
use collette.Examples.Consistency.{two, two-Consistent, IsByteKey, byte_key-IsLawful}

abbrev pub executor : ScanExecutor memory grouped
executor = record {
  collection_name = main_store;
  read_handle = record {
    stores =
        (main_store, (1 ∷ [], 1 ∷ 5 ∷ []) ∷ (2 ∷ [], 2 ∷ 5 ∷ []) ∷ [])
        ∷ (0x67 ∷ [], (5 ∷ 1 ∷ [], 1 ∷ []) ∷ (5 ∷ 2 ∷ [], 2 ∷ []) ∷ [])
        ∷ [];
  };
}

pub two_namespaces-sorted : SortedNamespaces two
unfolding compare_bytes
two_namespaces-sorted = ((((refl, tt), (tt, tt)), (((refl, tt), (tt, tt)), tt)), tt)

-- Numbers from 1 up to 3, downwards.
abbrev pub numbers : Range ℕ
numbers = (included 1, excluded 3)

abbrev pub by_number : CollectionIterator memory grouped
by_number = record { inner = all_ok ((2 ∷ [], 2 ∷ 5 ∷ []) ∷ (1 ∷ [], 1 ∷ 5 ∷ []) ∷ []) }

abbrev pub started : Scan (ScanExecutor memory grouped) ℕ
started = full executor

abbrev pub by_number_scan : Scan (ScanExecutor memory grouped) ℕ
by_number_scan = directed right_to_left (range (exact_encoder byte_key) numbers started)

pub by_number-iter :
    iter memory grouped byte_key (open_collection memory grouped) by_number_scan ≡ ok by_number
unfolding iter compile range open_collection open_read Memory.scan Map.range Map.filter_keys
    in_direction Map.get encode_range exact_encoder unsigned_key to_be_bytes compare_bytes
by_number-iter = refl

-- Groups from 5 on.
abbrev pub from_five : Range ℕ
from_five = (included 5, unbounded)

abbrev IsPair : ℕ → ℕ → Type 0
IsPair k pk = IsByteKey k × IsByteKey pk

abbrev pub by_group_entries : IndexIterator memory grouped
by_group_entries = record {
  inner = all_ok ((5 ∷ 1 ∷ [], 1 ∷ []) ∷ (5 ∷ 2 ∷ [], 2 ∷ []) ∷ []);
  primary_store = (1 ∷ [], 1 ∷ 5 ∷ []) ∷ (2 ∷ [], 2 ∷ 5 ∷ []) ∷ [];
}

abbrev pub no_record : Bytes → String
no_record kb = "record not found"

pub by_group-iter :
    iter memory grouped byte_key
      (open_index memory grouped by_group)
      (directed left_to_right (range by_group.kind.bounds from_five started))
    ≡ ok by_group_entries
unfolding iter compile range open_index open_read Memory.scan Map.range Map.filter_keys in_direction
    Map.get encode_range prefix_encoder multi unsigned_key to_be_bytes compare_bytes
by_group-iter = refl

byte_nonempty : (pk : ℕ) → byte_key.encode pk ≢ []
unfolding unsigned_key to_be_bytes
byte_nonempty pk e = cc

fits :
    (k pk : ℕ)
    → IsPair k pk
    → contains compare_bytes
        (encode_range by_group.kind.bounds from_five)
        (by_group.store_ops.encode (by_group.kind.store_key k pk))
      ≡ contains compare from_five k
unfolding pair_key append_to_one
fits k pk (v, w) =
    multi-fits byte_key-IsLawful from_five (omega arith) tt append_to_one by_group.store_ops k pk
      (byte_key.encode pk) tt refl (byte_key-IsLawful.bytes pk w) (byte_nonempty pk) v

abbrev pub main_entries : Map.Map Bytes
main_entries = (1 ∷ [], 1 ∷ 5 ∷ []) ∷ (2 ∷ [], 2 ∷ 5 ∷ []) ∷ []

valid-IsPair :
    (bytes : Bytes) (y x : ℕ × ℕ) (bytes' : Bytes)
    → bytes ≡ bytes'
    → two_bytes bytes' ≡ ok y
    → IsPair y.1 y.0
    → two_bytes bytes ≡ ok x
    → IsPair x.1 x.0
valid-IsPair bytes y x bytes' e q v d =
    let p : y ≡ x = ok_injective (sym q ∙ ap two_bytes (sym e) ∙ d) in
    subst (λ z. IsPair z.1 z.0) p v

entry-IsPair :
    (kb bytes : Bytes) (x : ℕ × ℕ)
    → Memᴰ (kb, bytes) main_entries
    → two_bytes bytes ≡ ok x
    → IsPair x.1 x.0
entry-IsPair kb bytes x (Memᴰ.head e) d =
    valid-IsPair bytes (1, 5) x (1 ∷ 5 ∷ []) (cc) refl (omega arith) d
entry-IsPair kb bytes x (Memᴰ.tail (Memᴰ.head e)) d =
    valid-IsPair bytes (2, 5) x (2 ∷ 5 ∷ []) (cc) refl (omega arith) d
entry-IsPair kb bytes x (Memᴰ.tail (Memᴰ.tail i)) d = elim i [ ]

held : memory_law.stored two groups.name main_store ≡ Map.get main_entries
unfolding memory_law Map.get compare_bytes
held = refl

valid :
    (x : ℕ × ℕ) → StoredIn groups (memory_law.stored two groups.name main_store) x → IsPair x.1 x.0
valid x h =
    entry-IsPair (place groups x) h.bytes x
      (get-Mem main_entries (place groups x)
        (sym (ap (λ (m : Content). m (place groups x)) held) ∙ h.there))
      h.decodes

two-IsPrepared : IsPrepared groups two
unfolding Map.get compare_bytes
two-IsPrepared = record {
  state = record { stores = executor.read_handle.stores };
  there = refl;
  main = (main_entries, refl);
  indexed = (((5 ∷ 1 ∷ [], 1 ∷ []) ∷ (5 ∷ 2 ∷ [], 2 ∷ []) ∷ [], refl), tt);
}

pub two-IsSound : IsSoundInMemory groups IsByteKey two
unfolding memory_listing
two-IsSound = record {
  ready = IsPrepared-IsReady groups two two-IsPrepared;
  ordered = two_namespaces-sorted;
  consistent = two-Consistent;
}

pub numbers-is_range : is_range (encode_range (exact_encoder byte_key) numbers) ≡ true
unfolding encode_range exact_encoder unsigned_key to_be_bytes compare_bytes
numbers-is_range = refl

from_five-is_range : is_range (encode_range by_group.kind.bounds from_five) ≡ true
unfolding encode_range multi prefix_encoder unsigned_key to_be_bytes compare_bytes
from_five-is_range = refl

ready_scan-ListsRecords_example :
    (s : Scan (ScanExecutor memory grouped) ℕ) × (it : CollectionIterator memory grouped)
    × (found : List (Entry (ℕ × ℕ))) × (Open.scan memory groups two ≡ ok s)
    × (iter memory grouped byte_key
          (open_collection memory grouped)
          (directed right_to_left (range (exact_encoder byte_key) numbers s))
        ≡ ok it)
    × Drains (next_stored memory grouped) it (map ok found)
    × ListsRecords
        (StoredIn groups (memory_law.stored two groups.name main_store))
        (place groups)
        (λ x. contains compare numbers x.0)
        right_to_left
        found
ready_scan-ListsRecords_example =
    ready_scan-ListsRecords memory memory_law memory_available memory_listing groups two two-IsSound
      byte_key right_to_left byte_key-IsLawful numbers (omega arith) (omega arith) numbers-is_range

ready_index_scan-ListsRecords_example :
    (s : Scan (ScanExecutor memory grouped) ℕ) × (it : IndexIterator memory grouped) × (found : List
      (Entry (ℕ × ℕ)))
    × (index_scan memory groups by_group two ≡ ok s)
    × (iter memory grouped byte_key
          (open_index memory grouped by_group)
          (directed left_to_right (range by_group.kind.bounds from_five s))
        ≡ ok it)
    × Drains (next_indexed memory grouped no_record) it (map ok found)
    × ListsRecords
        (StoredIn groups (memory_law.stored two groups.name main_store))
        (index_place groups by_group)
        (λ x. contains compare from_five x.1)
        left_to_right
        found
ready_index_scan-ListsRecords_example =
    ready_index_scan-ListsRecords memory memory_law memory_available memory_listing groups two
      two-IsSound byte_key left_to_right no_record by_group (Memᴰ.head refl) compare IsPair valid
      from_five fits from_five-is_range

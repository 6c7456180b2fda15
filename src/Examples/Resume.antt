-- ===== src/Examples/Resume.antt =====
-- Scans that are resumed and read in pages.
use collette.Prelude.{ℕ, ◌≡◌, refl, List, [], ◌∷◌, ◌++◌, map}
use collette.Bytes.{compare_bytes}
use collette.Outcome.{ok}
use collette.Key.Unsigned.{to_be_bytes, unsigned_key}
use collette.Index.{multi}
use collette.Bounds.{encode_range, prefix_encoder}
use collette.Map
use collette.Store.{left_to_right}
use collette.Memory
use collette.Memory.{memory, Namespaces, open_read, in_direction}
use collette.Memory.Contract.{memory_law}
use collette.Memory.Available.{memory_available}
use collette.Memory.Listing.{memory_listing}
use collette.Scan.{
  Scan, cursor_none, cursor_key, directed, range, after, compile, start_after, tighten,
  into_key_vec,
}
use collette.Scan.Open.{
  Entry, ScanExecutor, CollectionIterator, IndexIterator, next_stored, next_indexed,
  open_collection, open_index, iter, collection_entry, index_entry, require_record,
}
use collette.Scan.Records.{Drains, stop, step, entry_at}
use collette.Scan.Resume.Reading.{ReadInPages, one_page, last_page}
use collette.Scan.Resume.Iterators.{resume_stored, pages_indexed}
use collette.Examples.Collections.{grouped, by_group, byte_key}
use collette.Examples.Records.{
  executor, by_number_scan, by_number, by_number-iter, by_group_entries, by_group-iter, from_five,
  started, no_record,
}

executor-sound : memory_listing.OkReadHandle executor.read_handle
unfolding memory_listing compare_bytes
executor-sound = (((refl, tt), (tt, tt)), (((refl, tt), (tt, tt)), tt))

by_number-Drains :
    Drains
      (next_stored memory grouped)
      by_number
      (map ok ([] ++ entry_at (2, 5) (2 ∷ []) ∷ entry_at (1, 5) (1 ∷ []) ∷ []))
unfolding next_stored collection_entry
by_number-Drains = step _ _ _ _ refl (step _ _ _ _ refl (stop _ refl))

resume_stored_example :
    (it' : CollectionIterator memory grouped) × (iter memory grouped byte_key
        (open_collection memory grouped)
        (after (cursor_key (2 ∷ [])) by_number_scan)
      ≡ ok it')
    × Drains (next_stored memory grouped) it' (map ok (entry_at (1, 5) (1 ∷ []) ∷ []))
unfolding range
resume_stored_example =
    resume_stored memory grouped memory_law memory_available memory_listing byte_key by_number_scan
      executor-sound by_number [] (entry_at (2, 5) (2 ∷ [])) (entry_at (1, 5) (1 ∷ []) ∷ [])
      by_number-iter by_number-Drains

abbrev by_group_scan : Scan (ScanExecutor memory grouped) ℕ
by_group_scan = directed left_to_right (range by_group.kind.bounds from_five started)

abbrev first : Entry (ℕ × ℕ)
first = entry_at (1, 5) (5 ∷ 1 ∷ [])

abbrev second : Entry (ℕ × ℕ)
second = entry_at (2, 5) (5 ∷ 2 ∷ [])

by_group-Drains :
    Drains (next_indexed memory grouped no_record) by_group_entries (map ok (first ∷ second ∷ []))
unfolding next_indexed index_entry require_record Memory.get Map.get compare_bytes
by_group-Drains = step _ _ _ _ refl (step _ _ _ _ refl (stop _ refl))

-- What is left behind the first entry.
abbrev behind_first : IndexIterator memory grouped
behind_first = record {
  inner = ok (5 ∷ 2 ∷ [], 2 ∷ []) ∷ [];
  primary_store = by_group_entries.primary_store;
}

from_start :
    iter memory grouped byte_key
      (open_index memory grouped by_group)
      (after cursor_none by_group_scan)
    ≡ ok by_group_entries
unfolding iter compile range open_index open_read Memory.scan Map.range Map.filter_keys in_direction
    Map.get encode_range prefix_encoder multi unsigned_key to_be_bytes compare_bytes start_after
    into_key_vec
from_start = refl

from_first :
    iter memory grouped byte_key
      (open_index memory grouped by_group)
      (after first.key by_group_scan)
    ≡ ok behind_first
unfolding iter compile range open_index open_read Memory.scan Map.range Map.filter_keys in_direction
    Map.get encode_range prefix_encoder multi unsigned_key to_be_bytes compare_bytes start_after
    into_key_vec tighten
from_first = refl

behind_first-Drains :
    Drains (next_indexed memory grouped no_record) behind_first (map ok (second ∷ []))
unfolding next_indexed index_entry require_record Memory.get Map.get compare_bytes
behind_first-Drains = step _ _ _ _ refl (stop _ refl)

-- Two pages of one entry.
two_pages :
    ReadInPages memory grouped
      (open_index memory grouped by_group)
      (next_indexed memory grouped no_record)
      byte_key
      by_group_scan
      cursor_none
      (first ∷ second ∷ [])
two_pages =
    one_page cursor_none by_group_entries [] first (second ∷ []) (second ∷ []) from_start
      by_group-Drains
      (last_page first.key behind_first (second ∷ []) from_first behind_first-Drains)

pages_indexed_example : ◌≡◌ {A = List (Entry (ℕ × ℕ))} (first ∷ second ∷ []) (first ∷ second ∷ [])
unfolding range
pages_indexed_example =
    pages_indexed memory grouped by_group no_record memory_law memory_available memory_listing
      byte_key by_group_scan executor-sound by_group_entries (first ∷ second ∷ []) by_group-iter
      by_group-Drains (first ∷ second ∷ []) two_pages

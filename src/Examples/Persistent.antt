-- ===== src/Examples/Persistent.antt =====
-- The persistent backend over a concrete engine.
use collette.Prelude.{◌+◌, ◌*◌, length, ◌&&◌, ◌≡◌, refl, none, some, [], ◌∷◌, if◌then◌else◌}
use collette.Bytes.{Bytes, compare_bytes, ◌=ᵇ◌}
use collette.Map.Laws.{IsSorted}
use collette.Outcome.{ok}
use collette.Range.{included, unbounded}
use collette.Map
use collette.Store.{IsLawful, right_to_left, Name}
use collette.Store.Listing.{Lists, all_ok}
use collette.Memory
use collette.Memory.{in_direction}
use collette.Redb.{
  scan_entry, RedbMultiStore, redb, prepare, prepared_names, create_tables, insert_tables,
  retain_others, table_name, get_table, scan, hex_digit, push_hex, scan_bounds, bytes_bound,
  directed_range, take_items, next_item,
}
use collette.Redb.Names.{table_name-eq_test, length-table_name}
use collette.Redb.Contract.{redb-IsLawful, stored}
use collette.Redb.Listing.{redb-Lists}
use collette.Redb.Prepared.{get_table-prepare, prepare-stored, is_listed}
use collette.Examples.Engine.{engine, engine-contract, Table}

redb-IsLawful_example : IsLawful (redb engine)
redb-IsLawful_example = redb-IsLawful engine engine-contract

abbrev people : Name
people = 0x70 ∷ []

abbrev main : Name
main = 0x6d ∷ []

abbrev fresh : RedbMultiStore engine
fresh = record { db = []; tables = [] }

abbrev ready : RedbMultiStore engine
ready = record {
  db = (table_name people main, ([], tt)) ∷ [];
  tables = prepared_names people (main ∷ []);
}

prepared : prepare engine fresh people (main ∷ []) ≡ ok ready
unfolding prepare prepared_names create_tables insert_tables retain_others table_name push_hex
    hex_digit Map.get Map.insert
prepared = refl

get_table-prepare_example : get_table ready.tables (people, main) ≡ (
    if people =ᵇ people
    then if is_listed main (main ∷ []) then some (table_name people main) else none
    else get_table fresh.tables (people, main))
get_table-prepare_example = get_table-prepare engine fresh people (main ∷ []) prepared people main

prepare-stored_example : stored engine engine-contract ready ≡ stored engine engine-contract fresh
prepare-stored_example = prepare-stored engine engine-contract fresh people (main ∷ []) prepared

-- "a" and "bc", and "ab" and "c".
table_name-eq_test_example :
    (table_name (0x61 ∷ []) (0x62 ∷ 0x63 ∷ []) =ᵇ table_name (0x61 ∷ 0x62 ∷ []) (0x63 ∷ []))
    ≡ (((0x61 ∷ []) =ᵇ (0x61 ∷ 0x62 ∷ [])) && ((0x62 ∷ 0x63 ∷ []) =ᵇ (0x63 ∷ [])))
table_name-eq_test_example =
    table_name-eq_test (0x61 ∷ []) (0x61 ∷ 0x62 ∷ []) (0x62 ∷ 0x63 ∷ []) (0x63 ∷ [])

abbrev entries : Map.Map Bytes
entries = (1 ∷ [], 7 ∷ []) ∷ (2 ∷ [], 8 ∷ []) ∷ []

entries-IsSorted : IsSorted entries
unfolding compare_bytes
entries-IsSorted = ((refl, tt), (tt, tt))

abbrev table : Table
table = (entries, entries-IsSorted)

scanned :
    scan engine table (included (1 ∷ []), unbounded) right_to_left
    ≡ ok (all_ok ((2 ∷ [], 8 ∷ []) ∷ (1 ∷ [], 7 ∷ []) ∷ []))
unfolding scan scan_bounds bytes_bound directed_range take_items next_item scan_entry Memory.scan
    Map.range Map.filter_keys in_direction compare_bytes
scanned = refl

redb-Lists_example :
    Lists
      (engine-contract.readable table)
      (included (1 ∷ []), unbounded)
      right_to_left
      ((2 ∷ [], 8 ∷ []) ∷ (1 ∷ [], 7 ∷ []) ∷ [])
redb-Lists_example =
    redb-Lists engine engine-contract (included (1 ∷ []), unbounded) right_to_left table scanned

length-table_name_example :
    length (table_name people main) ≡ length people * 2 + 1 + length main * 2
length-table_name_example = length-table_name people main

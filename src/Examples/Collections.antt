-- ===== src/Examples/Collections.antt =====
-- A collection of numbered, grouped records over the memory backend.
use collette.Prelude.{ℕ, ◌≡◌, ◌↔◌, [], ◌∷◌, String}
use collette.Bytes.{Bytes}
use collette.Outcome.{Outcome, ok, err}
use collette.Key.{Key}
use collette.Key.Unsigned.{unsigned_key}
use collette.Key.Tuple.{pair_key}
use collette.Item.{Item}
use collette.Index.{Index, multi, append_to_one}
use collette.Memory.{Namespaces}
use collette.Collection.{Collection, main_store, collection}
use collette.Collection.Registered.{with_indexes, stacked, collection-with_indexes}
use collette.Collection.Consistent.{Distinct}

-- A record is its number and its group.
abbrev pub two_bytes : Bytes → Outcome String (ℕ × ℕ)
two_bytes (id ∷ group ∷ []) = ok (id, group)
two_bytes _ = err "two bytes expected"

abbrev pub grouped : Item (ℕ × ℕ) ℕ
grouped = record { key = λ r. r.0; to_bytes = λ r. ok (r.0 ∷ r.1 ∷ []); from_bytes = two_bytes }

abbrev pub byte_key : Key ℕ
byte_key = unsigned_key 1 (λ _. "")

abbrev pub by_group : Index (ℕ × ℕ) ℕ
by_group = record {
  name = 0x67 ∷ [];
  IndexKey = ℕ;
  StoreKey = ℕ × ℕ;
  key_ops = byte_key;
  store_ops = pair_key byte_key byte_key (λ _. "");
  kind = multi byte_key append_to_one;
  key = λ r. r.1;
}

abbrev pub groups : Collection (ℕ × ℕ) ℕ
groups = record { name = 0x72 ∷ []; item = grouped; pk_ops = byte_key; indexes = by_group ∷ [] }

-- The record (1, 5) is stored.
abbrev pub db : Namespaces
db =
    (
      0x72 ∷ [],
      record {
        stores =
            (main_store, (1 ∷ [], 1 ∷ 5 ∷ []) ∷ []) ∷ (0x67 ∷ [], (5 ∷ 1 ∷ [], 1 ∷ []) ∷ []) ∷ [];
      },
    )
    ∷ []

-- A second index, of the name of the first.
collection-with_indexes_example :
    (with_indexes (collection groups.name grouped byte_key) (by_group ∷ by_group ∷ [])
      ≡ ok (record {
        name = groups.name;
        item = grouped;
        pk_ops = byte_key;
        indexes = stacked (by_group ∷ by_group ∷ []) [];
      }))
    ↔ Distinct (stacked (by_group ∷ by_group ∷ []) [])
collection-with_indexes_example =
    collection-with_indexes groups.name grouped byte_key (by_group ∷ by_group ∷ [])
      (λ e. cc, (λ e. cc, tt))

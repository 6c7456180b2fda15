-- ===== src/Examples/Chains.antt =====
-- A chain of scan builders.
use collette.Prelude.{ℕ, [], ◌∷◌}
use collette.Bytes.{compare_bytes}
use collette.Range.{included, unbounded, contains}
use collette.Key.Tuple.{pair_key}
use collette.Index.{Index, unique}
use collette.Bounds.{pair_by_first, encode_prefixed_range}
use collette.Store.{right_to_left}
use collette.Memory.{memory, ReadHandle}
use collette.Collection.{main_store}
use collette.Scan.Builder.Chain.{ChainOutcome, chain-compile}
use collette.Examples.Collections.{grouped, byte_key}

-- A unique index by group and number.
abbrev by_both : Index (ℕ × ℕ) ℕ
by_both = record {
  name = 0x62 ∷ [];
  IndexKey = ℕ × ℕ;
  StoreKey = ℕ × ℕ;
  key_ops = pair_key byte_key byte_key (λ _. "");
  store_ops = pair_key byte_key byte_key (λ _. "");
  kind = unique (pair_key byte_key byte_key (λ _. ""));
  key = λ r. (r.1, r.0);
}

abbrev handle : ReadHandle
handle = record { stores = (main_store, []) ∷ (0x62 ∷ [], []) ∷ [] }

-- Group 5 from number 1 on, downwards, behind number 3.
chain-compile_example :
    ChainOutcome memory grouped byte_key by_both pair_by_first handle main_store 5
      (included 1, unbounded)
      right_to_left
      (5 ∷ 3 ∷ [])
      (contains compare_bytes
        (encode_prefixed_range by_both.kind.bounds byte_key pair_by_first 5 (included 1, unbounded))
        (5 ∷ 3 ∷ []))
chain-compile_example =
    chain-compile memory grouped byte_key by_both pair_by_first handle main_store 5
      (included 1, unbounded) right_to_left (5 ∷ 3 ∷ [])

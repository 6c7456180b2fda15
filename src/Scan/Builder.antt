-- ===== src/Scan/Builder.antt =====
-- scan.rs: the builder types of a scan. A method of a builder wraps it in the next one, so that a
-- chain is a type; the trait `Scan` is the record `Builder`. A chain compiles as its description of
-- type `Scan.Scan` does.
pub mod Chain
use collette.Outcome.{Outcome, Error, ok, ◌>>=◌}
use collette.Range.{Range}
use collette.Key.{Key}
use collette.Item.{Item}
use collette.Index.{Index}
use collette.Bounds.{
  ScanRange, BoundsEncoder, Prefixable, exact_encoder, encode_range, encode_prefixed_range,
}
use collette.Store.{MultiStore, Name, Direction}
use collette.Scan
use collette.Scan.{
  CompiledScan, Cursor, into_key_vec, start_after, compile_full, compile_prefixed, compile_ranged,
  compile_directed,
}
use collette.Scan.Open.{ScanExecutor}

-- The trait `Scan` for the builder type `S` with the executor type `E`.
pub record Builder (S E : Type 0) : Type 0 where
  pub compile : S → Outcome Error (CompiledScan E)

module _ {E I : Type 0} (open_with : E → ScanRange → Direction → Outcome Error I) where
  -- `CompiledScan::iter`
  unfoldable pub compiled_iter : CompiledScan E → Outcome Error I
  compiled_iter scan = open_with scan.executor scan.range scan.direction

  -- `Scan::iter`
  unfoldable pub builder_iter : {S : Type 0} → Builder S E → S → Outcome Error I
  unfolding compiled_iter
  builder_iter builder s = do scan ← builder.compile s; compiled_iter scan

pub record PrefixedScan (S P : Type 0) : Type 0 where
  pub prefix : P
  pub inner : S

pub record RangeScan (S : Type 0) : Type 0 where
  pub range : ScanRange
  pub inner : S

pub record DirectedScan (S : Type 0) : Type 0 where
  pub direction : Direction
  pub inner : S

pub record AfterScan (S : Type 0) : Type 0 where
  pub cursor : Cursor
  pub inner : S

module _ {S E : Type 0} (builder : Builder S E) where
  unfoldable pub prefixed_builder : {P : Type 0} → Key P → Builder (PrefixedScan S P) E
  prefixed_builder kp = record {
    compile = λ s. (do scan ← builder.compile s.inner; ok (compile_prefixed kp s.prefix scan));
  }

  unfoldable pub range_builder : Builder (RangeScan S) E
  range_builder = record {
    compile = λ s. (do scan ← builder.compile s.inner; ok (compile_ranged s.range scan));
  }

  unfoldable pub directed_builder : Builder (DirectedScan S) E
  directed_builder = record {
    compile = λ s. (do scan ← builder.compile s.inner; ok (compile_directed s.direction scan));
  }

  unfoldable pub after_builder : Builder (AfterScan S) E
  unfolding start_after
  after_builder = record {
    compile = λ s. (do scan ← builder.compile s.inner; start_after (into_key_vec s.cursor) scan);
  }

-- The methods of the later builders.
module _ {S : Type 0} where
  unfoldable pub prefixed_range :
      {K P Q : Type 0}
      → BoundsEncoder K
      → Key P
      → Prefixable K P Q
      → Range Q
      → PrefixedScan S P
      → RangeScan (PrefixedScan S P)
  prefixed_range e kp f r s = record { range = encode_prefixed_range e kp f s.prefix r; inner = s }

  unfoldable pub prefixed_direction :
      {P : Type 0} → Direction → PrefixedScan S P → DirectedScan (PrefixedScan S P)
  prefixed_direction direction s = record { direction = direction; inner = s }

  unfoldable pub prefixed_after :
      {P : Type 0} → Cursor → PrefixedScan S P → AfterScan (PrefixedScan S P)
  prefixed_after cursor s = record { cursor = cursor; inner = s }

  unfoldable pub ranged_direction : Direction → RangeScan S → DirectedScan (RangeScan S)
  ranged_direction direction s = record { direction = direction; inner = s }

  unfoldable pub ranged_after : Cursor → RangeScan S → AfterScan (RangeScan S)
  ranged_after cursor s = record { cursor = cursor; inner = s }

  unfoldable pub directed_after : Cursor → DirectedScan S → AfterScan (DirectedScan S)
  directed_after cursor s = record { cursor = cursor; inner = s }

module _ {R PK : Type 0} (b : MultiStore) (item : Item R PK) where
  pub record CollectionScan : Type 0 where
    pub executor : ScanExecutor b item

  unfoldable pub new_collection_scan : b.ReadHandle → Name → CollectionScan
  new_collection_scan read_handle collection_name = record {
    executor = record { collection_name = collection_name; read_handle = read_handle };
  }

  unfoldable pub collection_builder : Builder CollectionScan (ScanExecutor b item)
  collection_builder = record { compile = λ s. compile_full s.executor }

  unfoldable pub collection_range : Key PK → Range PK → CollectionScan → RangeScan CollectionScan
  collection_range k r s = record { range = encode_range (exact_encoder k) r; inner = s }

  unfoldable pub collection_direction : Direction → CollectionScan → DirectedScan CollectionScan
  collection_direction direction s = record { direction = direction; inner = s }

  unfoldable pub collection_after : Cursor → CollectionScan → AfterScan CollectionScan
  collection_after cursor s = record { cursor = cursor; inner = s }

  pub record IndexScan (i : Index R PK) : Type 0 where
    pub executor : ScanExecutor b item

  module _ (i : Index R PK) where
    unfoldable pub new_index_scan : b.ReadHandle → Name → IndexScan i
    new_index_scan read_handle collection_name = record {
      executor = record { collection_name = collection_name; read_handle = read_handle };
    }

    unfoldable pub index_builder : Builder (IndexScan i) (ScanExecutor b item)
    index_builder = record { compile = λ s. compile_full s.executor }

    unfoldable pub index_range : Range i.IndexKey → IndexScan i → RangeScan (IndexScan i)
    index_range r s = record { range = encode_range i.kind.bounds r; inner = s }

    unfoldable pub index_direction : Direction → IndexScan i → DirectedScan (IndexScan i)
    index_direction direction s = record { direction = direction; inner = s }

    unfoldable pub index_after : Cursor → IndexScan i → AfterScan (IndexScan i)
    index_after cursor s = record { cursor = cursor; inner = s }

    -- `PrefixableScan::prefix`
    unfoldable pub index_prefix : {P : Type 0} → P → IndexScan i → PrefixedScan (IndexScan i) P
    index_prefix prefix s = record { prefix = prefix; inner = s }

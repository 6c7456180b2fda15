-- ===== src/Scan.antt =====
-- scan.rs: the chain of scan builders and its compilation to one range of bytes; iter.rs: cursors.
-- Every builder type of the source is one constructor, over the executor type `E` and the type `P`
-- of prefixes. The encoder of bounds is passed to the methods that use it.
pub mod Open
pub mod After
pub mod Pages
pub mod Lookup
pub mod Records
pub mod Builder
pub mod Resume
use collette.Prelude.{Option, none, some, if◌then◌else◌}
use collette.Bytes.{Bytes, compare_bytes}
use collette.Outcome.{Outcome, Error, ok, err, cursor_out_of_bounds, ◌>>=◌}
use collette.Range.{Range, excluded, unbounded, contains}
use collette.Key.{Key}
use collette.Index.{Index, store_key_of}
use collette.Item.{Item}
use collette.Bounds.{
  ScanRange, BoundsEncoder, Prefixable, encode_prefix, encode_range, encode_prefixed_range,
}
use collette.Store.{Direction, left_to_right, right_to_left}

-- `Cursor::None` and `Cursor::Key`
pub data Cursor : Type 0 where
  cursor_none : Cursor
  cursor_key : Bytes → Cursor

-- `Cursor::from_key`
unfoldable pub from_key : {K : Type 0} → Key K → K → Cursor
from_key k key = cursor_key (k.encode key)

-- `Cursor::into_key_vec`
unfoldable pub into_key_vec : Cursor → Option Bytes
into_key_vec cursor_none = none
into_key_vec (cursor_key k) = some k

-- `Index::cursor`
unfoldable pub cursor : {R PK : Type 0} → Item R PK → Index R PK → R → Cursor
unfolding from_key
cursor item i r = from_key i.store_ops (store_key_of i r (item.key r))

pub record CompiledScan (E : Type 0) : Type 0 where
  pub executor : E
  pub range : ScanRange
  pub direction : Direction

-- IndexScan and CollectionScan (full), PrefixedScan, RangeScan, DirectedScan and AfterScan.
pub data Scan (E P : Type 0) : Type 0 where
  full : E → Scan E P
  prefixed : P → Scan E P → Scan E P
  ranged : ScanRange → Scan E P → Scan E P
  directed : Direction → Scan E P → Scan E P
  after : Cursor → Scan E P → Scan E P

module _ {E P : Type 0} where
  -- `range` of IndexScan and CollectionScan.
  unfoldable pub range : {K : Type 0} → BoundsEncoder K → Range K → Scan E P → Scan E P
  range e r inner = ranged (encode_range e r) inner

  -- `range` of PrefixedScan, whose parts are `prefix` and `inner`.
  unfoldable pub suffix_range :
      {K S : Type 0}
      → BoundsEncoder K
      → Key P
      → Prefixable K P S
      → P
      → Range S
      → Scan E P
      → Scan E P
  suffix_range e kp f prefix r inner =
      ranged (encode_prefixed_range e kp f prefix r) (prefixed prefix inner)

module _ {E : Type 0} where
  -- `compile` of IndexScan and of CollectionScan.
  abbrev pub compile_full : E → Outcome Error (CompiledScan E)
  compile_full executor =
      ok (record { executor = executor; range = (unbounded, unbounded); direction = left_to_right })

  -- `compile` of PrefixedScan, RangeScan and DirectedScan, once the inner scan is compiled.
  abbrev pub compile_prefixed : {P : Type 0} → Key P → P → CompiledScan E → CompiledScan E
  compile_prefixed kp prefix scan = record scan { range = encode_prefix kp prefix }

  abbrev pub compile_ranged : ScanRange → CompiledScan E → CompiledScan E
  compile_ranged r scan = record scan { range = r }

  abbrev pub compile_directed : Direction → CompiledScan E → CompiledScan E
  compile_directed d scan = record scan { direction = d }

  unfoldable pub tighten : Direction → Bytes → CompiledScan E → CompiledScan E
  tighten left_to_right c scan = record scan { range = (excluded c, scan.range.1) }
  tighten right_to_left c scan = record scan { range = (scan.range.0, excluded c) }

  -- `AfterScan::compile`, once the inner scan is compiled.
  unfoldable pub start_after : Option Bytes → CompiledScan E → Outcome Error (CompiledScan E)
  unfolding tighten
  start_after none scan = ok scan
  start_after (some c) scan =
      if contains compare_bytes scan.range c
      then ok (tighten scan.direction c scan)
      else err cursor_out_of_bounds

module _ {E P : Type 0} where
  unfoldable pub compile : Key P → Scan E P → Outcome Error (CompiledScan E)
  unfolding into_key_vec start_after
  compile kp (full executor) = compile_full executor
  compile kp (prefixed prefix inner) = do
    scan ← compile kp inner
    ok (compile_prefixed kp prefix scan)
  compile kp (ranged r inner) = do scan ← compile kp inner; ok (compile_ranged r scan)
  compile kp (directed d inner) = do scan ← compile kp inner; ok (compile_directed d scan)
  compile kp (after c inner) = do scan ← compile kp inner; start_after (into_key_vec c) scan

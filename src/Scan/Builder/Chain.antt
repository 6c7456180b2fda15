-- ===== src/Scan/Builder/Chain.antt =====
-- The chains of builders compile as their descriptions, and to what their methods were given.
use collette.Prelude.{◌≡◌, refl, ap, ◌∙◌, ◌&&◌, Bool, true, false, if◌then◌else◌}
use collette.Bytes.{Bytes, compare_bytes}
use collette.Outcome.{Outcome, Error, ok, err, cursor_out_of_bounds}
use collette.Range.{Range, contains}
use collette.Key.{Key}
use collette.Item.{Item}
use collette.Index.{Index}
use collette.Bounds.{ScanRange, Prefixable, encode_prefixed_range}
use collette.Store.{MultiStore, Name, Direction, past}
use collette.Scan
use collette.Scan.{
  CompiledScan, Scan, Cursor, cursor_key, into_key_vec, start_after, tighten, full, prefixed,
  ranged, directed, after,
}
use collette.Scan.Open.{ScanExecutor}
use collette.Scan.After.{tighten-StartsAfter}
use collette.Map.{is_range}
use collette.Scan.Builder.{
  Builder, prefixed_builder, range_builder, directed_builder, after_builder, prefixed_range,
  ranged_direction, directed_after, new_index_scan, index_builder, index_prefix, collection_builder,
}

-- The builder compiles as the described scan.
abbrev pub Describes : {S E P : Type 0} → Key P → Builder S E → (S → Scan E P) → Type 0
Describes {S} kp builder view = (s : S) → builder.compile s ≡ Scan.compile kp (view s)

module _ {S E P : Type 0} (kp : Key P) (builder : Builder S E) (view : S → Scan E P)
    (described : Describes kp builder view) where
  pub prefixed-Describes :
      Describes kp (prefixed_builder builder kp) (λ s. prefixed s.prefix (view s.inner))
  unfolding prefixed_builder Scan.compile
  prefixed-Describes s = rw (described s.inner) refl

  pub range-Describes : Describes kp (range_builder builder) (λ s. ranged s.range (view s.inner))
  unfolding range_builder Scan.compile
  range-Describes s = rw (described s.inner) refl

  pub directed-Describes :
      Describes kp (directed_builder builder) (λ s. directed s.direction (view s.inner))
  unfolding directed_builder Scan.compile
  directed-Describes s = rw (described s.inner) refl

  pub after-Describes : Describes kp (after_builder builder) (λ s. after s.cursor (view s.inner))
  unfolding after_builder Scan.compile
  after-Describes s = rw (described s.inner) refl

module _ {R PK P : Type 0} (b : MultiStore) (item : Item R PK) (kp : Key P) where
  pub collection-Describes : Describes kp (collection_builder b item) (λ s. full s.executor)
  unfolding collection_builder Scan.compile
  collection-Describes s = refl

  module _ (i : Index R PK) where
    pub index-Describes : Describes kp (index_builder b item i) (λ s. full s.executor)
    unfolding index_builder Scan.compile
    index-Describes s = refl

    module _ {Q : Type 0} (f : Prefixable i.IndexKey P Q) (h : b.ReadHandle) (n : Name) (p : P)
        (r : Range Q) (d : Direction) (c : Bytes) where
      -- What the chain of all methods of an index scan compiles to.
      abbrev pub chain : Outcome Error (CompiledScan (ScanExecutor b item))
      chain =
          (after_builder (
              directed_builder
                (range_builder (prefixed_builder (index_builder b item i) kp)))).compile
            (directed_after (cursor_key c) (
              ranged_direction d (
                prefixed_range i.kind.bounds kp f r
                  (index_prefix b item i p (new_index_scan b item i h n)))))

      abbrev pub suffixes : ScanRange
      suffixes = encode_prefixed_range i.kind.bounds kp f p r

      -- The compiled scan has all that the methods were given.
      pub record ChainScan (s : CompiledScan (ScanExecutor b item)) : Type 0 where
        pub collection_named : s.executor.collection_name ≡ n
        pub handle_kept : s.executor.read_handle ≡ h
        pub direction_kept : s.direction ≡ d
        pub is_scannable : is_range s.range ≡ true
        pub contains_lem :
            (k : Bytes)
            → contains compare_bytes s.range k ≡ (contains compare_bytes suffixes k && past d c k)

      -- By whether the cursor is in the range of the suffixes.
      abbrev pub ChainOutcome : Bool → Type 0
      ChainOutcome true = (s : CompiledScan (ScanExecutor b item)) × (chain ≡ ok s) × ChainScan s
      ChainOutcome false = chain ≡ err cursor_out_of_bounds

      -- The scan before it starts at the cursor.
      abbrev unresumed : CompiledScan (ScanExecutor b item)
      unresumed = record {
        executor = record { collection_name = n; read_handle = h };
        range = suffixes;
        direction = d;
      }

      chain_tightened : chain ≡ (
          if contains compare_bytes suffixes c
          then ok (tighten d c unresumed)
          else err cursor_out_of_bounds)
      unfolding after_builder directed_builder range_builder prefixed_builder index_builder
          directed_after ranged_direction prefixed_range index_prefix new_index_scan start_after
          into_key_vec
      chain_tightened = refl

      tighten-ChainScan :
          contains compare_bytes suffixes c ≡ true → ChainScan (tighten d c unresumed)
      tighten-ChainScan e =
          let t = tighten-StartsAfter c unresumed e in
          record {
            collection_named = ap (λ (x : ScanExecutor b item). x.collection_name) t.executor_kept;
            handle_kept = ap (λ (x : ScanExecutor b item). x.read_handle) t.executor_kept;
            direction_kept = t.direction_kept;
            is_scannable = t.is_scannable;
            contains_lem = t.contains_lem;
          }

      chain_outcome :
          (inside : Bool) → contains compare_bytes suffixes c ≡ inside → ChainOutcome inside
      chain_outcome true e =
          (tighten d c unresumed, chain_tightened ∙ rw e refl, tighten-ChainScan e)
      chain_outcome false e = chain_tightened ∙ rw e refl

      -- A chain of all builders of an index scan, with a prefix, a range of suffixes, a direction
      -- and a cursor, compiles exactly if the cursor lies in the encoded range, and fails else as
      -- out of bounds. The compiled scan has the given store name, handle and direction, its range
      -- can be scanned without a panic, and contains the keys of the encoded range that come after
      -- the cursor in the direction.
      pub chain-compile : ChainOutcome (contains compare_bytes suffixes c)
      chain-compile = chain_outcome _ refl

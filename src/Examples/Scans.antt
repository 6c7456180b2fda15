-- ===== src/Examples/Scans.antt =====
-- Scans at concrete builders, stores and cursors.
use collette.Prelude.{ℕ, ◌≡◌, refl, [], ◌∷◌}
use collette.Bytes.{compare_bytes}
use collette.Outcome.{ok}
use collette.Range.{included, excluded, contains}
use collette.Index.{Index, unique}
use collette.Store.{right_to_left}
use collette.Collection.{Collection}
use collette.Scan.{CompiledScan, Scan, full, ranged, directed, compile}
use collette.Scan.After.{AfterOutcome, compile-after}
use collette.Examples.Collections.{grouped, byte_key}

-- Keys from 2 up to 9, downwards.
abbrev downwards : Scan (Unit {0}) ℕ
downwards = directed right_to_left (ranged (included (2 ∷ []), excluded (9 ∷ [])) (full tt))

abbrev downwards_compiled : CompiledScan (Unit {0})
downwards_compiled = record {
  executor = tt;
  range = (included (2 ∷ []), excluded (9 ∷ []));
  direction = right_to_left;
}

downwards-compile : compile byte_key downwards ≡ ok downwards_compiled
unfolding compile
downwards-compile = refl

compile-after_example :
    AfterOutcome
      (5 ∷ [])
      byte_key
      downwards
      downwards_compiled
      (contains compare_bytes downwards_compiled.range (5 ∷ []))
compile-after_example =
    compile-after (5 ∷ []) byte_key downwards downwards_compiled downwards-compile

-- A unique index of the group.
abbrev pub by_code : Index (ℕ × ℕ) ℕ
by_code = record {
  name = 0x63 ∷ [];
  IndexKey = ℕ;
  StoreKey = ℕ;
  key_ops = byte_key;
  store_ops = byte_key;
  kind = unique byte_key;
  key = λ r. r.1;
}

abbrev pub coded : Collection (ℕ × ℕ) ℕ
coded = record { name = 0x72 ∷ []; item = grouped; pk_ops = byte_key; indexes = by_code ∷ [] }

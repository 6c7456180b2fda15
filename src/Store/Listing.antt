-- ===== src/Store/Listing.antt =====
-- What a backend promises of its scans.
use collette.Prelude.{◌≡◌, true, some, List, map, String}
use mathlib.Core.List.{Memᴰ, reverse}
use collette.Prelude.Listings.{IsOrdered, IsOrdered-reverse, Mem-reverse, reverse-Mem}
use collette.Bytes.{Bytes, compare_bytes}
use collette.Outcome.{Outcome, ok}
use collette.Range.{Range, contains}
use collette.Store.{
  MultiStore, Name, Direction, Content, IsLawful, past, left_to_right, right_to_left,
}

-- The entries of the store content `s` in a range, each once, in the direction.
pub record Lists (s : Content) (r : Range Bytes) (d : Direction) (entries : List (Bytes × Bytes))
    : Type 0 where
  pub ordered : IsOrdered (λ a b. past d a.0 b.0 ≡ true) entries
  pub sound :
      (k v : Bytes) → Memᴰ (k, v) entries → (contains compare_bytes r k ≡ true) × (s k ≡ some v)
  pub complete :
      (k v : Bytes) → contains compare_bytes r k ≡ true → s k ≡ some v → Memᴰ (k, v) entries

module _ {s : Content} {r : Range Bytes} {entries : List (Bytes × Bytes)} where
  -- What is listed upwards is listed downwards from its end.
  pub reverse-Lists : Lists s r left_to_right entries → Lists s r right_to_left (reverse entries)
  reverse-Lists l = record {
    ordered = IsOrdered-reverse (λ a b. past left_to_right a.0 b.0 ≡ true) entries l.ordered;
    sound = λ k v i. l.sound k v (reverse-Mem entries i);
    complete = λ k v c e. Mem-reverse entries (l.complete k v c e);
  }

-- The entries of a scan in which no entry fails.
abbrev pub all_ok : List (Bytes × Bytes) → List (Outcome String (Bytes × Bytes))
all_ok entries = map ok entries

-- An invariant of the backend's state, which every call keeps, and under which a scan that fails
-- nowhere lists the store.
pub record ScansInOrder (b : MultiStore) (law : IsLawful b) : Type 1 where
  pub OkDb : b.Db → Type 0
  pub OkReadHandle : b.ReadHandle → Type 0
  pub OkReadStore : b.ReadStore → Type 0
  pub OkWriteHandle : b.WriteHandle → Type 0
  pub OkWriteStore : b.WriteStore → Type 0
  pub prepare_keeps :
      (d : b.Db) (n : Name) (names : List Name) {d' : b.Db}
      → OkDb d
      → b.prepare d n names ≡ ok d'
      → OkDb d'
  pub read_keeps :
      (d : b.Db) (n : Name) {h : b.ReadHandle} → OkDb d → b.read d n ≡ ok h → OkReadHandle h
  pub open_read_keeps :
      (h : b.ReadHandle) (n : Name) {s : b.ReadStore}
      → OkReadHandle h
      → b.open_read h n ≡ ok s
      → OkReadStore s
  pub write_keeps :
      (d : b.Db) (n : Name) {w : b.WriteHandle} → OkDb d → b.write d n ≡ ok w → OkWriteHandle w
  pub open_write_keeps :
      (w : b.WriteHandle) (n : Name) {s : b.WriteStore}
      → OkWriteHandle w
      → b.open_write w n ≡ ok s
      → OkWriteStore s
  pub set_keeps :
      (s : b.WriteStore) (k v : Bytes) {s' : b.WriteStore}
      → OkWriteStore s
      → b.set s k v ≡ ok s'
      → OkWriteStore s'
  pub remove_keeps :
      (s : b.WriteStore) (k : Bytes) {s' : b.WriteStore}
      → OkWriteStore s
      → b.remove s k ≡ ok s'
      → OkWriteStore s'
  pub close_keeps :
      (w : b.WriteHandle) (n : Name) (s : b.WriteStore)
      → OkWriteHandle w
      → OkWriteStore s
      → OkWriteHandle (b.close w n s)
  pub commit_keeps :
      (d : b.Db) (w : b.WriteHandle) {d' : b.Db}
      → OkDb d
      → OkWriteHandle w
      → b.commit d w ≡ ok d'
      → OkDb d'
  pub scan_lem :
      (s : b.ReadStore) (r : Range Bytes) (d : Direction) {entries : List (Bytes × Bytes)}
      → OkReadStore s
      → b.scan s r d ≡ ok (all_ok entries)
      → Lists (law.readable s) r d entries
  pub scan_staged_lem :
      (s : b.WriteStore) (r : Range Bytes) (d : Direction) {entries : List (Bytes × Bytes)}
      → OkWriteStore s
      → b.scan_staged s r d ≡ ok (all_ok entries)
      → Lists (law.writable s) r d entries

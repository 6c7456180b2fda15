-- ===== src/Redb/Listing.antt =====
-- The scans of the persistent backend list the store.
use collette.Prelude.{
  ◌≡◌, refl, sym, ap, ◌∙◌, some, List, [], ◌∷◌, ◌++◌, length, length-append, arith,
}
use mathlib.Core.List.{reverse, reverse-reverse, reverse-cons, map-append}
use mathlib.Core.Path.{subst}
use collette.Bytes.{Bytes}
use collette.Outcome.{err, panic, Outcome, ok, >>=-eq_ok, ok_injective}
use collette.Range.{Range, Bound, included, excluded, unbounded}
use collette.Store.{Content, Direction, left_to_right, right_to_left, BackendError}
use collette.Store.Listing.{Lists, ScansInOrder, all_ok, reverse-Lists}
use collette.Redb.{
  scan_entry, Engine, redb, scan, scan_staged, scan_bounds, bytes_bound, take_items, directed_range,
  next_item, from_left, from_right, Items,
}
use collette.Redb.Contract.{redb_law}
use collette.Redb.Promises.{EngineContract}

scan_entry-id : (item : Outcome BackendError (Bytes × Bytes)) → scan_entry item ≡ item
unfolding scan_entry
scan_entry-id (ok e) = refl
scan_entry-id (err t) = refl
scan_entry-id panic = refl

take_left : (items : Items) → take_items (length items) (from_left items) ≡ items
unfolding take_items next_item
take_left [] = refl
take_left (item ∷ rest) = rw (scan_entry-id item) (ap (λ l. item ∷ l) (take_left rest))

length-reverse : {A : Type 0} (l : List A) → length (reverse l) ≡ length l
length-reverse [] = refl
length-reverse (x ∷ l) =
    ap length (reverse-cons x l)
    ∙ length-append (reverse l) (x ∷ [])
    ∙ omega (arith, length-reverse l)

next_back :
    (items : Items) (x : Outcome BackendError (Bytes × Bytes)) (rest : Items)
    → reverse items ≡ x ∷ rest
    → next_item (from_right items) ≡ some (scan_entry x, from_right (reverse rest))
unfolding next_item
next_back items x rest e = rw (e, next_item) refl

take_reversed : (items : Items) → take_items (length items) (from_right (reverse items)) ≡ items
unfolding take_items
take_reversed [] = refl
take_reversed (item ∷ rest) =
    rw
      (
        next_back (reverse (item ∷ rest)) item rest (reverse-reverse (item ∷ rest)),
        take_items,
        scan_entry-id item,
      )
      (ap (λ l. item ∷ l) (take_reversed rest))

take_right : (items : Items) → take_items (length items) (from_right items) ≡ reverse items
take_right items =
    ap (λ n. take_items n (from_right items)) (sym (length-reverse items))
    ∙ ap (λ l. take_items (length (reverse items)) (from_right l)) (sym (reverse-reverse items))
    ∙ take_reversed (reverse items)

bytes_bound-id : (b : Bound Bytes) → bytes_bound b ≡ b
unfolding bytes_bound
bytes_bound-id (included value) = refl
bytes_bound-id (excluded value) = refl
bytes_bound-id unbounded = refl

pub scan_bounds-id : (r : Range Bytes) → scan_bounds r ≡ r
unfolding scan_bounds
scan_bounds-id (s, e) =
    ap (λ b. (b, bytes_bound e)) (bytes_bound-id s) ∙ ap (λ b. (s, b)) (bytes_bound-id e)

all_ok-reverse : (l : List (Bytes × Bytes)) → all_ok (reverse l) ≡ reverse (all_ok l)
all_ok-reverse [] = refl
all_ok-reverse (x ∷ l) =
    ap all_ok (reverse-cons x l)
    ∙ map-append ok (reverse l) (x ∷ [])
    ∙ ap (λ (m : Items). m ++ ok x ∷ []) (all_ok-reverse l)
    ∙ sym (reverse-cons (ok x) (all_ok l))

-- What a scan yields of a range of a table, in which no entry fails.
pub yielded :
    (entries : List (Bytes × Bytes)) (d : Direction)
    → (found : List (Bytes × Bytes)) × (take_items
          (length (all_ok entries))
          (directed_range (all_ok entries) d)
        ≡ all_ok found)
unfolding directed_range
yielded entries left_to_right = (entries, take_left (all_ok entries))
yielded entries right_to_left =
    (reverse entries, take_right (all_ok entries) ∙ sym (all_ok-reverse entries))

-- What the crate's range of a table yields, in either direction.
module _ (held : Content) (range : Range Bytes → Outcome BackendError Items)
    (range_lem : (r : Range Bytes) (entries : List (Bytes × Bytes))
      → range r ≡ ok (all_ok entries)
      → Lists held r left_to_right entries)
    (r : Range Bytes) where
  listed :
      (d : Direction) (items : Items) {entries : List (Bytes × Bytes)}
      → range (scan_bounds r) ≡ ok items
      → take_items (length items) (directed_range items d) ≡ all_ok entries
      → Lists held r d entries
  unfolding directed_range
  listed left_to_right items q f =
      range_lem r _ (ap range (sym (scan_bounds-id r)) ∙ q ∙ ap ok (sym (take_left items) ∙ f))
  listed right_to_left items {entries} q f =
      let back : items ≡ all_ok (reverse entries) =
        sym (reverse-reverse items)
        ∙ ap reverse (sym (take_right items) ∙ f)
        ∙ sym (all_ok-reverse entries) in
      let up = range_lem r _ (ap range (sym (scan_bounds-id r)) ∙ q ∙ ap ok back) in
      subst (Lists held r right_to_left) (reverse-reverse entries) (reverse-Lists up)

module _ (e : Engine) (law : EngineContract e) (r : Range Bytes) (d : Direction)
    {entries : List (Bytes × Bytes)} where
  -- If the redb crate keeps its promises, a scan of the persistent backend in which no entry fails
  -- lists the table: every entry of the range and no other, once, in the direction.
  pub redb-Lists :
      (t : e.ReadTable) → scan e t r d ≡ ok (all_ok entries) → Lists (law.readable t) r d entries
  unfolding scan
  redb-Lists t q =
      let (items, p, f) = >>=-eq_ok (e.range t (scan_bounds r)) _ q in
      listed (law.readable t) (e.range t) (λ r _ g. law.range_lem t r g) r d items p
        (ok_injective f)

  pub redb-Lists_staged :
      (t : e.WriteTable)
      → scan_staged e t r d ≡ ok (all_ok entries)
      → Lists (law.writable t) r d entries
  unfolding scan_staged
  redb-Lists_staged t q =
      let (items, p, f) = >>=-eq_ok (e.range_staged t (scan_bounds r)) _ q in
      listed (law.writable t) (e.range_staged t) (λ r _ g. law.range_staged_lem t r g) r d items p
        (ok_injective f)

module _ (e : Engine) (law : EngineContract e) where
  unfoldable pub redb_listing : ScansInOrder (redb e) (redb_law e law)
  unfolding redb_law
  redb_listing = record {
    OkDb = λ d. Unit;
    OkReadHandle = λ h. Unit;
    OkReadStore = λ t. Unit;
    OkWriteHandle = λ w. Unit;
    OkWriteStore = λ t. Unit;
    prepare_keeps = λ d n names h q. tt;
    read_keeps = λ d n h q. tt;
    open_read_keeps = λ h n k q. tt;
    write_keeps = λ d n h q. tt;
    open_write_keeps = λ w n h q. tt;
    set_keeps = λ s k v h q. tt;
    remove_keeps = λ s k h q. tt;
    close_keeps = λ w n s h k. tt;
    commit_keeps = λ d w h k q. tt;
    scan_lem = λ t r d h q. redb-Lists e law r d t q;
    scan_staged_lem = λ t r d h q. redb-Lists_staged e law r d t q;
  }

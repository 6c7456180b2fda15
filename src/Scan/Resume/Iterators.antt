-- ===== src/Scan/Resume/Iterators.antt =====
-- Resuming the iterators of a collection and of an index.
use collette.Prelude.{◌≡◌, refl, sym, ap, List, ◌∷◌, ◌++◌, map, String}
use collette.Bytes.{Bytes}
use collette.Outcome.{Outcome, Error, ok, call-eq_ok, >>=-eq_ok, ok_injective}
use collette.Key.{Key}
use collette.Item.{Item}
use collette.Index.{Index}
use collette.Store.{MultiStore, IsLawful, Direction}
use collette.Store.Available.{Available}
use collette.Store.Listing.{ScansInOrder}
use collette.Bounds.{ScanRange}
use collette.Scan.{Scan, after, cursor_none}
use collette.Scan.Open.{
  Entry, CollectionIterator, IndexIterator, ScanExecutor, collection_entry, index_entry,
  next_stored, next_indexed, open_collection, open_index, iter, require_record,
}
use collette.Scan.Records.{Drains}
use collette.Scan.Resume.{Decoder, Opened, resume}
use collette.Scan.Resume.Reading.{ReadInPages, pages}
use collette.Scan.After.{executor_in}

module _ (b : MultiStore) {R PK : Type 0} (item : Item R PK) where
  stored_decoder : Decoder (next_stored b item)
  unfolding next_stored collection_entry
  stored_decoder = record {
    of_results = λ l. record { inner = l };
    decode = collection_entry b item;
    next_empty = refl;
    next_cons = λ res rest. refl;
    decode_ok = λ res e. let (a, q, rest) = call-eq_ok Error.backend res _ e in (a, q);
    decode_key = λ k v e.
        let (r, q, last) = call-eq_ok Error.codec (item.from_bytes v) _ e in
        sym (ap (λ (x : Entry R). x.key) (ok_injective last));
  }

  stored-Opened :
      (x : ScanExecutor b item) (r : ScanRange) (d : Direction) (it : CollectionIterator b item)
      → open_collection b item x r d ≡ ok it
      → Opened b item (open_collection b item) (next_stored b item) x r d it
  unfolding open_collection stored_decoder
  stored-Opened x r d it e =
      let (store, q, rest) =
        call-eq_ok Error.backend (b.open_read x.read_handle x.collection_name) _ e in
      let (results, scanned, last) = call-eq_ok Error.backend (b.scan store r d) _ rest in
      record {
        name = x.collection_name;
        store = store;
        there = q;
        results = results;
        scanned = scanned;
        decoder = stored_decoder;
        made = sym (ok_injective last);
        reopens = λ r' results' e'. rw (q, e') refl;
      }

  -- Over a backend that keeps its contract, is available and lists its stores in order, from a
  -- read handle in order: if a chain of builders of a collection scan is opened, and its iterator
  -- returns an entry, then the chain with the cursor of that entry is opened too, and its iterator
  -- returns exactly the entries that the first one returns behind that entry.
  pub resume_stored :
      (law : IsLawful b) (av : Available b) (l : ScansInOrder b law) {P : Type 0} (kp : Key P)
      (s : Scan (ScanExecutor b item) P)
      → l.OkReadHandle (executor_in s).read_handle
      → (it : CollectionIterator b item) (us : List (Entry R)) (e : Entry R) (ws : List (Entry R))
      → iter b item kp (open_collection b item) s ≡ ok it
      → Drains (next_stored b item) it (map ok (us ++ e ∷ ws))
      → (it' : CollectionIterator b item) × (iter b item kp (open_collection b item) (after e.key s)
          ≡ ok it')
        × Drains (next_stored b item) it' (map ok ws)
  resume_stored law av l kp s sound =
      resume b item (open_collection b item) (next_stored b item) law av l stored-Opened kp s sound

  module _ (i : Index R PK) (missing : Bytes → String) where
    index_decoder : b.ReadStore → Decoder (next_indexed b item missing)
    unfolding next_indexed index_entry
    index_decoder primary = record {
      of_results = λ l. record { inner = l; primary_store = primary };
      decode = index_entry b item missing primary;
      next_empty = refl;
      next_cons = λ res rest. refl;
      decode_ok = λ res e. let (a, q, rest) = call-eq_ok Error.backend res _ e in (a, q);
      decode_key = λ k v e.
          let (found, q, rest) = call-eq_ok Error.backend (b.get primary v) _ e in
          let (bytes, q', rest') = >>=-eq_ok (require_record b item missing v found) _ rest in
          let (r, q'', last) = call-eq_ok Error.codec (item.from_bytes bytes) _ rest' in
          sym (ap (λ (x : Entry R). x.key) (ok_injective last));
    }

    open_index-ok :
        (x : ScanExecutor b item) (r : ScanRange) (d : Direction) {store primary : b.ReadStore}
        {results : List (Outcome String (Bytes × Bytes))}
        → b.open_read x.read_handle i.name ≡ ok store
        → b.scan store r d ≡ ok results
        → b.open_read x.read_handle x.collection_name ≡ ok primary
        → open_index b item i x r d ≡ ok (record { inner = results; primary_store = primary })
    unfolding open_index
    open_index-ok x r d e f g = rw (e, f, g) refl

    index-Opened :
        (x : ScanExecutor b item) (r : ScanRange) (d : Direction) (it : IndexIterator b item)
        → open_index b item i x r d ≡ ok it
        → Opened b item (open_index b item i) (next_indexed b item missing) x r d it
    unfolding open_index index_decoder
    index-Opened x r d it e =
        let (store, q, rest) = call-eq_ok Error.backend (b.open_read x.read_handle i.name) _ e in
        let (results, scanned, rest') = call-eq_ok Error.backend (b.scan store r d) _ rest in
        let (primary, p, last) =
          call-eq_ok Error.backend (b.open_read x.read_handle x.collection_name) _ rest' in
        record {
          name = i.name;
          store = store;
          there = q;
          results = results;
          scanned = scanned;
          decoder = index_decoder primary;
          made = sym (ok_injective last);
          reopens = λ r' results' e'. open_index-ok x r' d q e' p;
        }

    -- The iterator of an index is resumed at the cursor of an entry likewise.
    pub resume_indexed :
        (law : IsLawful b) (av : Available b) (l : ScansInOrder b law) {P : Type 0} (kp : Key P)
        (s : Scan (ScanExecutor b item) P)
        → l.OkReadHandle (executor_in s).read_handle
        → (it : IndexIterator b item) (us : List (Entry R)) (e : Entry R) (ws : List (Entry R))
        → iter b item kp (open_index b item i) s ≡ ok it
        → Drains (next_indexed b item missing) it (map ok (us ++ e ∷ ws))
        → (it' : IndexIterator b item) × (iter b item kp (open_index b item i) (after e.key s)
            ≡ ok it')
          × Drains (next_indexed b item missing) it' (map ok ws)
    resume_indexed law av l kp s sound =
        resume b item (open_index b item i) (next_indexed b item missing) law av l index-Opened kp s
          sound

    -- Over a backend that keeps its contract, is available and lists its stores in order, from a
    -- read handle in order: if an index scan that returns no error is read in pages of any sizes,
    -- each started with the cursor of the last entry of the one before, then the pages together
    -- are what the one scan returns: no entry is lost and none comes twice.
    pub pages_indexed :
        (law : IsLawful b) (av : Available b) (l : ScansInOrder b law) {P : Type 0} (kp : Key P)
        (s : Scan (ScanExecutor b item) P) (sound : l.OkReadHandle (executor_in s).read_handle)
        (it : IndexIterator b item) (all : List (Entry R))
        → iter b item kp (open_index b item i) s ≡ ok it
        → Drains (next_indexed b item missing) it (map ok all)
        → (es : List (Entry R))
        → ReadInPages b item (open_index b item i) (next_indexed b item missing) kp s cursor_none es
        → es ≡ all
    pages_indexed law av l kp s sound it all opened drained es p =
        pages b item (open_index b item i) (next_indexed b item missing) kp s law av l index-Opened
          sound it all opened drained es p

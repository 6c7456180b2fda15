-- ===== src/Scan/Resume.antt =====
-- Resuming a scan at the cursor of an entry that its iterator returned.
pub mod Reading
pub mod Iterators
use collette.Prelude.{
  ◌≡◌, ◌≢◌, refl, sym, ap, ◌∙◌, Option, none, some, List, [], ◌∷◌, ◌++◌, map, String,
}
use mathlib.Core.Path.{subst}
use collette.Bytes.{Bytes}
use collette.Outcome.{Outcome, Error, ok, >>=-eq_ok, ◌>>=◌}
use collette.Key.{Key}
use collette.Item.{Item}
use collette.Store.Listing.{ScansInOrder, all_ok}
use collette.Store.{MultiStore, IsLawful, Name, Direction}
use collette.Store.Available.{Available}
use collette.Bounds.{ScanRange}
use collette.Scan.{CompiledScan, Scan, after, compile, Cursor, cursor_key}
use collette.Scan.After.{executor_in, compile-executor}
use collette.Scan.Pages.{scan-after}
use collette.Scan.Open.{Entry, ScanExecutor, iter}
use collette.Collection.Consistent.IndexStep.{some_injective}
use collette.Scan.Records.{Drains, stop, step}

-- An iterator that decodes the results of the backend one by one.
pub record Decoder {R I : Type 0} (next : I → Option (Outcome Error (Entry R) × I)) : Type 0 where
  pub of_results : List (Outcome String (Bytes × Bytes)) → I
  pub decode : Outcome String (Bytes × Bytes) → Outcome Error (Entry R)
  pub next_empty : next (of_results []) ≡ none
  pub next_cons :
      (res : Outcome String (Bytes × Bytes)) (rest : List (Outcome String (Bytes × Bytes)))
      → next (of_results (res ∷ rest)) ≡ some (decode res, of_results rest)
  pub decode_ok :
      (res : Outcome String (Bytes × Bytes)) {e : Entry R}
      → decode res ≡ ok e
      → (a : Bytes × Bytes) × (res ≡ ok a)
  pub decode_key : (k v : Bytes) {e : Entry R} → decode (ok (k, v)) ≡ ok e → e.key ≡ cursor_key k

module _ {R I : Type 0} {next : I → Option (Outcome Error (Entry R) × I)} (d : Decoder next) where
  -- Where in the results of the backend the entry `e` comes from, and what is drained behind it.
  record Splits (l : List (Bytes × Bytes)) (e : Entry R) (ws : List (Entry R)) : Type 0 where
    pub before : List (Bytes × Bytes)
    pub k : Bytes
    pub v : Bytes
    pub behind : List (Bytes × Bytes)
    pub parts : l ≡ before ++ (k, v) ∷ behind
    pub cursor : e.key ≡ cursor_key k
    pub drains : Drains next (d.of_results (all_ok behind)) (map ok ws)

  drained_step :
      {it : I} {x y : Outcome Error (Entry R)} {xs : List (Outcome Error (Entry R))} {it' : I}
      → Drains next it (x ∷ xs)
      → next it ≡ some (y, it')
      → (y ≡ x) × Drains next it' xs
  drained_step {it} {x} {y} {xs} (step _ it' _ _ e r) q =
      let p = some_injective (sym q ∙ e) in
      (ap (λ a. a.0) p, subst (λ i. Drains next i xs) (sym (ap (λ a. a.1) p)) r)

  undrained :
      {it : I} {x : Outcome Error (Entry R)} {xs : List (Outcome Error (Entry R))}
      → Drains next it (x ∷ xs)
      → next it ≢ none
  undrained (step _ it' _ _ e r) q = cc

  undrained_cons : {it : I} → Drains next it [] → next it ≡ none
  undrained_cons (stop _ e) = e

  -- Where no error is drained, the backend returned none.
  drained_ok :
      (results : List (Outcome String (Bytes × Bytes))) (all : List (Entry R))
      → Drains next (d.of_results results) (map ok all)
      → (l : List (Bytes × Bytes)) × (results ≡ all_ok l)
  drained_ok [] all r = ([], refl)
  drained_ok (res ∷ rest) [] r =
      let e = undrained_cons r in let q = d.next_cons res rest in absurd (cc)
  drained_ok (res ∷ rest) (x ∷ xs) r =
      let (q, more) = drained_step r (d.next_cons res rest) in
      let (a, e) = d.decode_ok res q in let (l, f) = drained_ok rest xs more in (a ∷ l, cc)

  split :
      (l : List (Bytes × Bytes)) (us : List (Entry R)) (e : Entry R) (ws : List (Entry R))
      → Drains next (d.of_results (all_ok l)) (map ok (us ++ e ∷ ws))
      → Splits l e ws
  split [] [] e ws r = absurd (undrained r d.next_empty)
  split [] (u ∷ us) e ws r = absurd (undrained r d.next_empty)
  split ((k, v) ∷ l) [] e ws r =
      let (q, rest) = drained_step r (d.next_cons (ok (k, v)) (all_ok l)) in
      record {
        before = [];
        k = k;
        v = v;
        behind = l;
        parts = refl;
        cursor = d.decode_key k v q;
        drains = rest;
      }
  split ((k, v) ∷ l) (u ∷ us) e ws r =
      let (q, rest) = drained_step r (d.next_cons (ok (k, v)) (all_ok l)) in
      let s = split l us e ws rest in
      record {
        before = (k, v) ∷ s.before;
        k = s.k;
        v = s.v;
        behind = s.behind;
        parts = ap (λ x. (k, v) ∷ x) s.parts;
        cursor = s.cursor;
        drains = s.drains;
      }

module _ (b : MultiStore) {R PK I : Type 0} (item : Item R PK)
    (open_with : ScanExecutor b item → ScanRange → Direction → Outcome Error I)
    (next : I → Option (Outcome Error (Entry R) × I)) where
  -- How an executor opened its iterator: over the scan of a store, of which another scan is opened
  -- likewise.
  pub record Opened (x : ScanExecutor b item) (r : ScanRange) (d : Direction) (it : I)
      : Type 0 where
    pub name : Name
    pub store : b.ReadStore
    pub there : b.open_read x.read_handle name ≡ ok store
    pub results : List (Outcome String (Bytes × Bytes))
    pub scanned : b.scan store r d ≡ ok results
    pub decoder : Decoder next
    pub made : it ≡ decoder.of_results results
    pub reopens :
        (r' : ScanRange) (results' : List (Outcome String (Bytes × Bytes)))
        → b.scan store r' d ≡ ok results'
        → open_with x r' d ≡ ok (decoder.of_results results')

  module _ (law : IsLawful b) (av : Available b) (l : ScansInOrder b law)
      (opens : (x : ScanExecutor b item) (r : ScanRange) (d : Direction) (it : I)
        → open_with x r d ≡ ok it
        → Opened x r d it)
      {P : Type 0} (kp : Key P) (s : Scan (ScanExecutor b item) P)
      (sound : l.OkReadHandle (executor_in s).read_handle) where
    -- The scan behind the cursor of an entry, once it is compiled.
    reopened :
        (cs cs' : CompiledScan (ScanExecutor b item)) {it : I}
        (op : Opened cs.executor cs.range cs.direction it) (cursor : Cursor)
        (rest : List (Outcome String (Bytes × Bytes)))
        → compile kp (after cursor s) ≡ ok cs'
        → cs'.executor ≡ cs.executor
        → cs'.direction ≡ cs.direction
        → b.scan op.store cs'.range cs.direction ≡ ok rest
        → iter b item kp open_with (after cursor s) ≡ ok (op.decoder.of_results rest)
    unfolding iter
    reopened cs cs' op cursor rest q x d e =
        ap
          (λ m. m >>= λ (y : CompiledScan (ScanExecutor b item)).
            open_with y.executor y.range y.direction)
          q
        ∙ ap (λ y. open_with y cs'.range cs'.direction) x
        ∙ ap (open_with cs.executor cs'.range) d
        ∙ op.reopens cs'.range rest e

    Opened-Ok :
        (cs : CompiledScan (ScanExecutor b item)) {it : I}
        (op : Opened cs.executor cs.range cs.direction it)
        → compile kp s ≡ ok cs
        → l.OkReadStore op.store
    Opened-Ok cs op q =
        l.open_read_keeps cs.executor.read_handle op.name
          (subst (λ (x : ScanExecutor b item). l.OkReadHandle x.read_handle)
            (sym (compile-executor kp s cs q)) sound)
          op.there

    pub resume :
        (it : I) (us : List (Entry R)) (e : Entry R) (ws : List (Entry R))
        → iter b item kp open_with s ≡ ok it
        → Drains next it (map ok (us ++ e ∷ ws))
        → (it' : I) × (iter b item kp open_with (after e.key s) ≡ ok it')
          × Drains next it' (map ok ws)
    unfolding iter
    resume it us e ws opened drained =
        let (cs, q, o) = >>=-eq_ok (compile kp s) _ opened in
        let op = opens cs.executor cs.range cs.direction it o in
        let drained' = subst (λ i. Drains next i (map ok (us ++ e ∷ ws))) op.made drained in
        let (entries, all) = drained_ok op.decoder op.results (us ++ e ∷ ws) drained' in
        let parts = split op.decoder entries us e ws (
          subst (λ r. Drains next (op.decoder.of_results r) (map ok (us ++ e ∷ ws))) all
            drained') in
        let (cs', q', x, d, rest) =
          scan-after b law av l kp s cs op.store (Opened-Ok cs op q) q parts.before parts.k parts.v
            parts.behind (op.scanned ∙ ap ok (all ∙ ap all_ok parts.parts)) in
        (
          op.decoder.of_results (all_ok parts.behind),
          subst
              (λ k.
                iter b item kp open_with (after k s)
                ≡ ok (op.decoder.of_results (all_ok parts.behind)))
              (sym parts.cursor) (reopened cs cs' op _ _ q' x d rest),
          parts.drains,
        )

-- ===== src/Scan/Resume/Reading.antt =====
-- A scan that is read in pages, each from behind the last entry of the one before.
use collette.Prelude.{append_assoc, ◌≡◌, refl, sym, ap, ◌∙◌, Option, List, [], ◌∷◌, ◌++◌, map}
use mathlib.Core.Path.{subst}
use collette.Outcome.{Outcome, Error, map_ok_injective, ok, >>=-eq_ok, ok_injective}
use collette.Key.{Key}
use collette.Item.{Item}
use collette.Store.{MultiStore, IsLawful, Direction}
use collette.Store.Available.{Available}
use collette.Store.Listing.{ScansInOrder}
use collette.Bounds.{ScanRange}
use collette.Scan.{Scan, after, compile, Cursor, cursor_none, start_after, into_key_vec}
use collette.Scan.Open.{Entry, ScanExecutor, iter}
use collette.Collection.Consistent.IndexStep.{some_injective}
use collette.Scan.Records.{Drains, stop, step}
use collette.Scan.Resume.{Opened, resume}
use collette.Scan.After.{executor_in}

-- An iterator drains in one way.
Drains-unique :
    {A I : Type 0} {next : I → Option (A × I)} {it : I} {xs ys : List A}
    → Drains next it xs
    → Drains next it ys
    → xs ≡ ys
Drains-unique (stop _ e) (stop _ e') = refl
Drains-unique (stop _ e) (step _ it' y ys e' r) = cc
Drains-unique (step _ it' x xs e r) (stop _ e') = cc
Drains-unique {next} (step _ it' x xs e r) (step _ it'' y ys e' r') =
    let p = some_injective (sym e ∙ e') in
    let t = Drains-unique (subst (λ i. Drains next i xs) (ap (λ a. a.1) p) r) r' in
    let h = ap (λ a. a.0) p in cc

module _ (b : MultiStore) {R PK I P : Type 0} (item : Item R PK)
    (open_with : ScanExecutor b item → ScanRange → Direction → Outcome Error I)
    (next : I → Option (Outcome Error (Entry R) × I)) (kp : Key P)
    (s : Scan (ScanExecutor b item) P) where
  -- The scan is read in pages: each starts behind the cursor of the last entry of the one before,
  -- and ends at any entry, but for the last one.
  pub data ReadInPages : Cursor → List (Entry R) → Type 0 where
    last_page :
        (k : Cursor) (it : I) (es : List (Entry R))
        → iter b item kp open_with (after k s) ≡ ok it
        → Drains next it (map ok es)
        → ReadInPages k es
    one_page :
        (k : Cursor) (it : I) (us : List (Entry R)) (e : Entry R) (ws es : List (Entry R))
        → iter b item kp open_with (after k s) ≡ ok it
        → Drains next it (map ok (us ++ e ∷ ws))
        → ReadInPages e.key es
        → ReadInPages k (us ++ e ∷ es)

  module _ (law : IsLawful b) (av : Available b) (l : ScansInOrder b law)
      (opens : (x : ScanExecutor b item) (r : ScanRange) (d : Direction) (it : I)
        → open_with x r d ≡ ok it
        → Opened b item open_with next x r d it)
      (sound : l.OkReadHandle (executor_in s).read_handle) where
    module _ (it : I) (all : List (Entry R)) (opened : iter b item kp open_with s ≡ ok it)
        (drained : Drains next it (map ok all)) where
      same_rest :
          (k : Cursor) {it1 it2 : I} (xs ys : List (Entry R))
          → iter b item kp open_with (after k s) ≡ ok it1
          → Drains next it1 (map ok xs)
          → iter b item kp open_with (after k s) ≡ ok it2
          → Drains next it2 (map ok ys)
          → xs ≡ ys
      same_rest k xs ys e r e' r' =
          map_ok_injective xs ys (
            Drains-unique (subst (λ i. Drains next i (map ok xs)) (ok_injective (sym e ∙ e')) r) r')

      pages_rest :
          (k : Cursor) (before rest es : List (Entry R)) {it' : I}
          → all ≡ before ++ rest
          → iter b item kp open_with (after k s) ≡ ok it'
          → Drains next it' (map ok rest)
          → ReadInPages k es
          → es ≡ rest
      pages_rest k before rest _ q e r (last_page _ it1 es e' r') = same_rest k es rest e' r' e r
      pages_rest k before rest _ q e r (one_page _ it1 us x ws es e' r' more) =
          let h = same_rest k (us ++ x ∷ ws) rest e' r' e r in
          let at : all ≡ (before ++ us) ++ x ∷ ws =
            q ∙ ap (λ l. before ++ l) (sym h) ∙ sym (append_assoc before us (x ∷ ws)) in
          let (it2, e2, r2) =
            resume b item open_with next law av l opens kp s sound it (before ++ us) x ws opened
              (subst (λ l. Drains next it (map ok l)) at drained) in
          let behind =
            pages_rest x.key ((before ++ us) ++ x ∷ []) ws es
              (at ∙ sym (append_assoc (before ++ us) (x ∷ []) ws)) e2 r2 more in
          ap (λ l. us ++ x ∷ l) behind ∙ h

      from_none : iter b item kp open_with (after cursor_none s) ≡ ok it
      unfolding iter compile start_after into_key_vec
      from_none = let (cs, q, o) = >>=-eq_ok (compile kp s) _ opened in rw q o

      pub pages : (es : List (Entry R)) → ReadInPages cursor_none es → es ≡ all
      pages es p = pages_rest cursor_none [] all es refl from_none drained p

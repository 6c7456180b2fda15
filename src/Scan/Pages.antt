-- ===== src/Scan/Pages.antt =====
-- scan.rs and iter.rs: what a backend lists for a scan that is resumed behind an entry.
use collette.Prelude.{◌≡◌, refl, sym, ap, ◌∙◌, true, ◌&&◌, List, ◌∷◌, ◌++◌, arith, inl, inr}
use mathlib.Core.List.Memᴰ
use mathlib.Core.List.{Memᴰ}
use mathlib.Core.Path.{subst}
use collette.Prelude.Listings.{All-Mem, IsOrdered-right, ordered_across, ordered_unique}
use collette.Bytes.{Bytes, compare_bytes}
use collette.Bytes.Order.{compare_bytes-flip}
use collette.Outcome.{ok}
use collette.Range.{Range, contains}
use collette.Key.{Key}
use collette.Store.{MultiStore, IsLawful, Content, past, Direction, left_to_right, right_to_left}
use collette.Store.Available.{Available}
use collette.Store.Listing.{Lists, ScansInOrder, all_ok}
use collette.Scan.{CompiledScan, Scan, after, compile, cursor_key}
use collette.Scan.After.{AfterOutcome, compile-after}

past_asym : (d : Direction) (a b : Bytes) → past d a b ≡ true → past d b a ≡ true → ⊥
past_asym left_to_right a b h k = ground (arith, compare_bytes-flip a b)
past_asym right_to_left a b h k = ground (arith, compare_bytes-flip a b)

module _ {s : Content} {r : Range Bytes} {d : Direction} where
  -- The entries of a range are listed in one way.
  Lists-unique : {xs ys : List (Bytes × Bytes)} → Lists s r d xs → Lists s r d ys → xs ≡ ys
  Lists-unique {xs} {ys} l l' =
      ordered_unique (λ a b. past d a.0 b.0 ≡ true) (λ a b. past_asym d a.0 b.0) xs ys l.ordered
        l'.ordered (λ a i. let (c, e) = l.sound a.0 a.1 i in l'.complete a.0 a.1 c e)
        (λ a i. let (c, e) = l'.sound a.0 a.1 i in l.complete a.0 a.1 c e)

  module _ (xs : List (Bytes × Bytes)) (c v : Bytes) (ys : List (Bytes × Bytes))
      (listed : Lists s r d (xs ++ (c, v) ∷ ys)) where
    abbrev Later : Bytes × Bytes → Bytes × Bytes → Type 0
    Later a b = past d a.0 b.0 ≡ true

    not_at : (k w : Bytes) → past d c k ≡ true → Memᴰ (k, w) ((c, v) ∷ ys) → Memᴰ (k, w) ys
    not_at k w p (Memᴰ.tail j) = j
    not_at k w p (Memᴰ.head e) =
        let q = subst (λ x. past d c x ≡ true) (ap (λ (a : Bytes × Bytes). a.0) e) p in
        absurd (past_asym d c c q q)

    later_entry :
        (k w : Bytes) → past d c k ≡ true → Memᴰ (k, w) (xs ++ (c, v) ∷ ys) → Memᴰ (k, w) ys
    later_entry k w p i = elim (Memᴰ.append_cases xs i) [
      | inl j ↦
          absurd (past_asym d c k p (ordered_across Later xs listed.ordered j (Memᴰ.head refl)))
      | inr j ↦ not_at k w p j
    ]

    behind-Lists :
        {r' : Range Bytes}
        → ((k : Bytes) → contains compare_bytes r' k ≡ (contains compare_bytes r k && past d c k))
        → Lists s r' d ys
    behind-Lists later =
        let o = IsOrdered-right Later xs ((c, v) ∷ ys) listed.ordered in
        record {
          ordered = o.1;
          sound = λ k w i.
              let (inside, e) = listed.sound k w (Memᴰ.append_right xs (Memᴰ.tail i)) in
              let p = All-Mem (Later (c, v)) o.0 i in (rw (later k, inside, p) refl, e);
          complete = λ k w h e.
              let q = sym (later k) ∙ h in
              later_entry k w (ground arith) (listed.complete k w (ground arith) e);
        }

-- A page of a compiled scan ends at the entry with the key `c`: the scan that starts after `c`
-- compiles, and returns the entries that the first scan returns behind that one.
module _ (b : MultiStore) (law : IsLawful b) (av : Available b) (l : ScansInOrder b law)
    {E P : Type 0} (kp : Key P) (inner : Scan E P) (s : CompiledScan E) (store : b.ReadStore)
    (sound : l.OkReadStore store) (compiled : compile kp inner ≡ ok s) where
  pub scan-after :
      (xs : List (Bytes × Bytes)) (c v : Bytes) (ys : List (Bytes × Bytes))
      → b.scan store s.range s.direction ≡ ok (all_ok (xs ++ (c, v) ∷ ys))
      → (s' : CompiledScan E) × (compile kp (after (cursor_key c) inner) ≡ ok s')
        × (s'.executor ≡ s.executor)
        × (s'.direction ≡ s.direction)
        × (b.scan store s'.range s.direction ≡ ok (all_ok ys))
  scan-after xs c v ys e =
      let listed = l.scan_lem store s.range s.direction sound e in
      let (inside, _) = listed.sound c v (Memᴰ.append_right xs (Memᴰ.head refl)) in
      let (s', q, a) =
        subst (AfterOutcome c kp inner s) inside (compile-after c kp inner s compiled) in
      let (entries, e') = av.scan_returns store s'.range s.direction a.is_scannable in
      let same =
        Lists-unique (l.scan_lem store s'.range s.direction sound e')
          (behind-Lists xs c v ys listed a.contains_lem) in
      (s', q, a.executor_kept, a.direction_kept, e' ∙ ap (λ t. ok (all_ok t)) same)

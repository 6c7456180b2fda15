-- ===== src/Scan/Records.antt =====
-- iter.rs: what is drained from an iterator over the records of a scan, and when these are the
-- records of a range.
pub mod Primary
pub mod Secondary
pub mod Unique
pub mod Available
use collette.Prelude.{
  ◌≡◌, refl, sym, ap, ◌∙◌, Bool, true, Option, none, some, List, [], ◌∷◌, map, String,
}
use collette.Prelude.Listings.{IsOrdered}
use collette.Prelude.Pairwise.{Pairwise, left_of, right_of, IsOrdered-Pairwise}
use collette.Outcome.{ok_injective, Outcome, Error, ok}
use mathlib.Core.List.{Memᴰ}
use mathlib.Core.Path.{subst}
use collette.Bytes.{Bytes, compare_bytes}
use collette.Range.{Range, contains}
use collette.Store.{Content, Direction, past}
use collette.Store.Listing.{Lists, all_ok}
use collette.Scan.{cursor_key}
use collette.Scan.Open.{Entry}

-- The iterator returns these results, and then none.
pub data Drains {A I : Type 0} (next : I → Option (A × I)) : I → List A → Type 0 where
  stop : (it : I) → next it ≡ none → Drains next it []
  step :
      (it it' : I) (x : A) (xs : List A)
      → next it ≡ some (x, it')
      → Drains next it' xs
      → Drains next it (x ∷ xs)

-- The entry of the record `r` that stands under the bytes `k`.
abbrev pub entry_at : {R : Type 0} → R → Bytes → Entry R
entry_at r k = record { found = r; key = cursor_key k }

module _ {R : Type 0} (IsStored : R → Type 0) (position : R → Bytes) where
  -- The entries `found` are those of the stored records that pass the test, each once, in the
  -- direction, and with the cursor of the record's position.
  pub record ListsRecords (inside : R → Bool) (d : Direction) (found : List (Entry R))
      : Type 0 where
    pub ordered : IsOrdered (λ a b. past d (position a.found) (position b.found) ≡ true) found
    pub sound :
        (e : Entry R)
        → Memᴰ e found
        → IsStored e.found × (inside e.found ≡ true) × (e.key ≡ cursor_key (position e.found))
    pub complete : (r : R) → IsStored r → inside r ≡ true → Memᴰ (entry_at r (position r)) found

  -- A store whose entries are turned into those of the stored records.
  pub record Presents (t : Content)
      (decode : Outcome String (Bytes × Bytes) → Outcome Error (Entry R)) : Type 0 where
    pub decodes :
        (k v : Bytes)
        → t k ≡ some v
        → (r : R) × (decode (ok (k, v)) ≡ ok (entry_at r k)) × (position r ≡ k) × IsStored r
    pub present :
        (r : R)
        → IsStored r
        → (v : Bytes) × (t (position r) ≡ some v)
          × (decode (ok (position r, v)) ≡ ok (entry_at r (position r)))

  module _ {t : Content} {decode : Outcome String (Bytes × Bytes) → Outcome Error (Entry R)}
      (presents : Presents t decode) where
    -- The entry of the store and that of the scan.
    pub record Decoded (a : Bytes × Bytes) (e : Entry R) : Type 0 where
      pub decoded : decode (ok a) ≡ ok e
      pub cursor : e.key ≡ cursor_key a.0
      pub placed : position e.found ≡ a.0
      pub stored : IsStored e.found

    decode_all :
        (entries : List (Bytes × Bytes))
        → ((k v : Bytes) → Memᴰ (k, v) entries → t k ≡ some v)
        → (found : List (Entry R)) × (map decode (all_ok entries) ≡ map ok found)
          × Pairwise Decoded entries found
    decode_all [] h = ([], refl, tt)
    decode_all ((k, v) ∷ entries) h =
        let (found, e, p) = decode_all entries (λ k v i. h k v (Memᴰ.tail i)) in
        let (r, q, l, s) = presents.decodes k v (h k v (Memᴰ.head refl)) in
        (
          entry_at r k ∷ found,
          cc,
          (record { decoded = q; cursor = refl; placed = l; stored = s }, p),
        )

    module _ (br : Range Bytes) (inside : R → Bool) (d : Direction)
        (fits : (r : R) → IsStored r → contains compare_bytes br (position r) ≡ inside r) where
      pub Lists-records :
          {entries : List (Bytes × Bytes)}
          → Lists t br d entries
          → (found : List (Entry R)) × (map decode (all_ok entries) ≡ map ok found)
            × ListsRecords inside d found
      Lists-records {entries} l =
          let (found, e, p) = decode_all entries (λ k v i. (l.sound k v i).1) in
          (
            found,
            e,
            record {
              ordered =
                  IsOrdered-Pairwise Decoded (λ a b. past d a.0 b.0 ≡ true)
                    (λ a b. past d (position a.found) (position b.found) ≡ true)
                    (λ a a' b b' p q h. rw (p.placed, q.placed) h) entries found p l.ordered;
              sound = λ e i.
                  let (a, j, q) = left_of Decoded entries found p e i in
                  (
                    q.stored,
                    sym (fits e.found q.stored)
                        ∙ ap (contains compare_bytes br) q.placed
                        ∙ (l.sound a.0 a.1 j).0,
                    q.cursor ∙ ap cursor_key (sym q.placed),
                  );
              complete = λ r s c.
                  let (v, there, q) = presents.present r s in
                  let (e, j, h) =
                    right_of Decoded entries found p (position r, v)
                      (l.complete (position r) v (fits r s ∙ c) there) in
                  subst (λ x. Memᴰ x found) (ok_injective (sym h.decoded ∙ q)) j;
            },
          )

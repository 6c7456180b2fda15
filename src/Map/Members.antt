-- ===== src/Map/Members.antt =====
-- The entries of the ordered map as members of a list.
use collette.Prelude.{eq, gt, ◌⊎◌, inl, inr, ◌≡◌, refl, lt, some, [], ◌∷◌, Ordering, arith, All}
use collette.Prelude.Listings.{All-Mem, IsOrdered}
use mathlib.Core.List.{Memᴰ}
use mathlib.Core.Path.{subst}
use collette.Bytes.{Bytes, compare_bytes}
use collette.Bytes.Order.{compare_bytes_refl, eq_of_compare_bytes, compare_bytes-flip}
use collette.Map.{Map, get, insert}
use collette.Map.Laws.{IsSorted}

module _ {ℓ} {V : Type ℓ} (j : Bytes) (w : V) (m : Map V) (k : Bytes) {v : V} where
  split_order :
      (o : Ordering)
      → compare_bytes k j ≡ o
      → get ((j, w) ∷ m) k ≡ some v
      → ((k ≡ j) × (w ≡ v)) ⊎ (get m k ≡ some v)
  unfolding get
  split_order lt q e = let e' = rw (q, get) at e in inr e'
  split_order eq q e = let e' = rw (q, get) at e in inl (eq_of_compare_bytes k j q, cc)
  split_order gt q e = let e' = rw (q, get) at e in inr e'

  -- What is found is at the head or behind it.
  get-cons : get ((j, w) ∷ m) k ≡ some v → ((k ≡ j) × (w ≡ v)) ⊎ (get m k ≡ some v)
  get-cons e = split_order (compare_bytes k j) refl e

module _ {V : Type 0} where
  pub get-Mem : (m : Map V) (k : Bytes) {v : V} → get m k ≡ some v → Memᴰ (k, v) m
  get-Mem [] k e = unfold get in absurd (cc)
  get-Mem ((j, w) ∷ m) k {v} e = elim (get-cons j w m k e) [
    | inl h ↦ Memᴰ.head (cc (h.0, h.1))
    | inr h ↦ Memᴰ.tail (get-Mem m k h)
  ]

  pub Mem-get : {k : Bytes} {v : V} (m : Map V) → IsSorted m → Memᴰ (k, v) m → get m k ≡ some v
  unfolding get
  Mem-get [] s i = elim i [ ]
  Mem-get {k} ((j, w) ∷ m) s (Memᴰ.head e) = ground (arith, compare_bytes_refl k)
  Mem-get {k} ((j, w) ∷ m) s (Memᴰ.tail i) = ground (
    arith,
    Mem-get m s.1 i,
    compare_bytes-flip j k,
    All-Mem (λ e. compare_bytes j e.0 ≡ lt) s.0 i,
  )

  pub IsSorted-IsOrdered :
      (m : Map V) → IsSorted m → IsOrdered (λ a b. compare_bytes a.0 b.0 ≡ lt) m
  IsSorted-IsOrdered [] s = tt
  IsSorted-IsOrdered ((j, w) ∷ m) s = (s.0, IsSorted-IsOrdered m s.1)

module _ {ℓ} {V : Type ℓ} (P : V → Type 0) where
  pub All-insert :
      (m : Map V) (k : Bytes) (v : V) → All (λ e. P e.1) m → P v → All (λ e. P e.1) (insert m k v)
  unfolding insert
  All-insert [] k v h p = (p, tt)
  All-insert ((j, w) ∷ m) k v h p = ground (arith, All-insert m k v h.1 p)

  pub All-get : (m : Map V) (k : Bytes) {v : V} → All (λ e. P e.1) m → get m k ≡ some v → P v
  All-get [] k h e = unfold get in absurd (cc)
  All-get ((j, w) ∷ m) k h e = elim (get-cons j w m k e) [
    | inl q ↦ subst P q.1 h.0
    | inr q ↦ All-get m k h.1 q
  ]

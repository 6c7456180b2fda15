-- ===== src/Map/Laws.antt =====
-- The laws of the ordered map.
use collette.Prelude.{Bool, ◌≡◌, lt, none, some, [], ◌∷◌, if◌then◌else◌, arith, All}
use collette.Bytes.{Bytes, compare_bytes, ◌=ᵇ◌}
use collette.Bytes.Order.{
  compare_bytes_refl, eq_of_compare_bytes, compare_bytes-flip, lt_bytes_trans,
}
use collette.Map.{Map, get, insert, remove, filter_keys}

module _ {ℓ} {V : Type ℓ} where
  pub get-insert :
      (m : Map V) (k j : Bytes) (v : V)
      → get (insert m k v) j ≡ (if k =ᵇ j then some v else get m j)
  unfolding get insert
  get-insert [] k j v = ground (arith, compare_bytes-flip k j)
  get-insert ((i, w) ∷ m) k j v = ground (
    arith,
    get-insert m k j v,
    compare_bytes-flip k j,
    eq_of_compare_bytes k i,
    eq_of_compare_bytes j i,
    eq_of_compare_bytes k j,
    compare_bytes_refl k,
  )

  pub get-remove :
      (m : Map V) (k j : Bytes) → get (remove m k) j ≡ (if k =ᵇ j then none else get m j)
  unfolding get remove
  get-remove [] k j = ground arith
  get-remove ((i, w) ∷ m) k j = ground (
    arith,
    get-remove m k j,
    compare_bytes-flip k j,
    eq_of_compare_bytes k i,
    eq_of_compare_bytes j i,
    eq_of_compare_bytes k j,
    compare_bytes_refl k,
  )

  -- Every key of the map is behind `b`.
  abbrev pub Behind : Bytes → Map V → Type 0
  Behind b m = All (λ e. compare_bytes b e.0 ≡ lt) m

  abbrev pub IsSorted : Map V → Type 0
  IsSorted [] = Unit
  IsSorted ((k, v) ∷ m) = Behind k m × IsSorted m

  Behind-trans : (b c : Bytes) (m : Map V) → compare_bytes b c ≡ lt → Behind c m → Behind b m
  Behind-trans b c [] h a = tt
  Behind-trans b c ((k, v) ∷ m) h a = (lt_bytes_trans b c k h a.0, Behind-trans b c m h a.1)

  Behind-insert :
      (b k : Bytes) (v : V) (m : Map V)
      → compare_bytes b k ≡ lt
      → Behind b m
      → Behind b (insert m k v)
  unfolding insert
  Behind-insert b k v [] h a = (h, tt)
  Behind-insert b k v ((j, w) ∷ m) h a = ground (arith, Behind-insert b k v m)

  -- Inserting keeps the order, whether the key is new or not.
  pub insert-IsSorted : (m : Map V) (k : Bytes) (v : V) → IsSorted m → IsSorted (insert m k v)
  unfolding insert
  insert-IsSorted [] k v s = (tt, tt)
  insert-IsSorted ((j, w) ∷ m) k v s = ground (
    arith,
    insert-IsSorted m k v,
    Behind-insert j k v m,
    Behind-trans k j m,
    eq_of_compare_bytes k j,
    compare_bytes-flip k j,
  )

  Behind-remove : (b k : Bytes) (m : Map V) → Behind b m → Behind b (remove m k)
  unfolding remove
  Behind-remove b k [] a = tt
  Behind-remove b k ((j, w) ∷ m) a = ground (arith, Behind-remove b k m)

  pub remove-IsSorted : (m : Map V) (k : Bytes) → IsSorted m → IsSorted (remove m k)
  unfolding remove
  remove-IsSorted [] k s = tt
  remove-IsSorted ((j, w) ∷ m) k s = ground (arith, remove-IsSorted m k, Behind-remove j k m)

  Behind-filter_keys :
      (b : Bytes) (p : Bytes → Bool) (m : Map V) → Behind b m → Behind b (filter_keys p m)
  unfolding filter_keys
  Behind-filter_keys b p [] a = tt
  Behind-filter_keys b p ((j, w) ∷ m) a = ground (arith, Behind-filter_keys b p m)

  pub filter_keys-IsSorted :
      (p : Bytes → Bool) (m : Map V) → IsSorted m → IsSorted (filter_keys p m)
  unfolding filter_keys
  filter_keys-IsSorted p [] s = tt
  filter_keys-IsSorted p ((j, w) ∷ m) s =
      ground (arith, filter_keys-IsSorted p m, Behind-filter_keys j p m)

  -- A key is found among the filtered entries exactly if it passes and is in the map.
  pub get-filter_keys :
      (p : Bytes → Bool) (m : Map V) (k : Bytes)
      → get (filter_keys p m) k ≡ (if p k then get m k else none)
  unfolding get filter_keys
  get-filter_keys p [] k = ground arith
  get-filter_keys p ((j, w) ∷ m) k = ground (arith, get-filter_keys p m k, eq_of_compare_bytes k j)

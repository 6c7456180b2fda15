-- ===== src/Collection/InMemory/Stale.antt =====
-- backend/memory.rs: a write handle that is older than a call of `prepare`: `prepare` does not pass the writer gate,
-- and a commit replaces all stores of the namespace.
use collette.Prelude.{◌≡◌, refl, none, some, List, []}
use mathlib.Core.List.{Memᴰ}
use collette.Prelude.Listings.{All-Mem}
use collette.Outcome.{ok, panic}
use collette.Map
use collette.Map.Laws.{get-insert}
use collette.Store.{Name}
use collette.Store.Put.{=ᵇ_refl}
use collette.Memory.{
  Namespaces, NamespacedState, KvStore, ReadHandle, WriteHandle, write, prepare, prepared_stores,
  commit, read, open_read,
}
use collette.Memory.Available.{prepared-All}

module _ (db : Namespaces) (n m : Name) (names : List Name) (state : NamespacedState)
    (there : Map.get db n ≡ some state) (absent : Map.get state.stores m ≡ none)
    (listed : Memᴰ m names) where
  abbrev after_prepare : NamespacedState
  after_prepare = record { stores = prepared_stores state.stores names [] }

  opened_before :
      (h : ReadHandle) × (read (Map.insert db n after_prepare) n ≡ ok h)
      × (s : KvStore) × (open_read h m ≡ ok s)
  unfolding read open_read
  opened_before =
      let (s, e) = All-Mem _ (prepared-All state.stores names []) listed in
      (
        record { stores = after_prepare.stores },
        rw (get-insert db n n after_prepare, =ᵇ_refl) refl,
        s,
        rw e refl,
      )

  -- In the memory backend, a store that prepare adds to a namespace while a write handle on it is
  -- open can be opened by a reader, but no longer once that handle has committed: opening it then
  -- panics.
  pub stale_commit-panics :
      (w : WriteHandle) × (prepared : Namespaces) × (committed : Namespaces) × (write db n ≡ ok w)
      × (prepare db n names ≡ ok prepared)
      × (commit prepared w ≡ ok committed)
      × ((h : ReadHandle) × (s : KvStore) × (read prepared n ≡ ok h) × (open_read h m ≡ ok s))
      × ((h : ReadHandle) × (read committed n ≡ ok h) × (open_read h m ≡ panic))
  unfolding write prepare commit read open_read
  stale_commit-panics =
      let (h, e, s, o) = opened_before in
      (
        record { namespace = n; staged = state.stores },
        Map.insert db n after_prepare,
        Map.insert (Map.insert db n after_prepare) n state,
        rw there refl,
        rw (there, prepare) refl,
        refl,
        (h, s, e, o),
        (
          record { stores = state.stores },
          rw (get-insert (Map.insert db n after_prepare) n n state, =ᵇ_refl) refl,
          rw absent refl,
        ),
      )

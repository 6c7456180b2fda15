-- ===== src/Examples/Threads.antt =====
-- Two threads that insert into one collection over the memory backend, and a handle that is older
-- than a call of `prepare`.
use collette.Prelude.{ℕ, ◌≡◌, refl, some, none, List, [], ◌∷◌, arith}
use mathlib.Core.List.{Memᴰ}
use collette.Bytes.{compare_bytes}
use collette.Outcome.{ok, panic}
use collette.Map
use collette.Store.{Name}
use collette.Memory.{
  memory, Namespaces, NamespacedState, NamespacedStores, KvStore, ReadHandle, WriteHandle, write,
  prepare, commit, read, open_read,
}
use collette.Memory.Contract.{stored}
use collette.Memory.Gate
use collette.Memory.Gate.Commits.{Change, Logged, later, IsChain, commits-IsChain}
use collette.Memory.Gate.{
  Shared, working, woken, start, moved, acquire, snapshot, publish, release, arrive, retry,
  take_snapshot, stage, drop_notify,
}
use collette.Collection.{main_store}
use collette.Collection.InMemory.Stale.{stale_commit-panics}
use collette.Collection.Session.{Command, inserting, perform, session}
use collette.Memory.Listing.{memory_listing}
use collette.Collection.InMemory.{IsSoundInMemory, IsPrepared-IsReady}
use collette.Collection.Session.Specified.{spec_session}
use collette.Collection.Concurrent.{alone, History, begun, quiet, committed, history-IsSerial}
use collette.Examples.Collections.{groups}
use collette.Examples.Consistency.{
  empty-Consistent, IsByteKey, byte_key-IsLawful, distinct, tests, codec, inserted, inserted_second,
}
use collette.Examples.InMemory.{to_bytes_returns, two_bytes_returns}

abbrev no_stores : NamespacedStores
no_stores = (main_store, []) ∷ (0x67 ∷ [], []) ∷ []

abbrev first_stores : NamespacedStores
first_stores = (main_store, (2 ∷ [], 2 ∷ 5 ∷ []) ∷ []) ∷ (0x67 ∷ [], (5 ∷ 2 ∷ [], 2 ∷ []) ∷ []) ∷ []

abbrev both_stores : NamespacedStores
both_stores =
    (main_store, (1 ∷ [], 1 ∷ 5 ∷ []) ∷ (2 ∷ [], 2 ∷ 5 ∷ []) ∷ [])
    ∷ (0x67 ∷ [], (5 ∷ 1 ∷ [], 1 ∷ []) ∷ (5 ∷ 2 ∷ [], 2 ∷ []) ∷ [])
    ∷ []

-- Thread 2 waits while thread 1 has the gate.
abbrev waits : Shared
waits = acquire (acquire (start no_stores) 1) 2

abbrev staged_first : Shared
staged_first = moved (snapshot waits 1) 1 (working no_stores first_stores)

abbrev handed : Shared
handed = moved (release (publish staged_first 1 first_stores) 1) 2 woken

abbrev staged_second : Shared
staged_second = moved (snapshot (acquire handed 2) 2) 2 (working first_stores both_stores)

abbrev last : Shared
last = publish staged_second 2 both_stores

abbrev calls : List (Command (ℕ × ℕ) ℕ)
calls = inserting (2, 5) ∷ inserting (1, 5) ∷ []

until_first : History groups no_stores staged_first []
unfolding start acquire snapshot
until_first =
    quiet _ _ _
      (quiet _ _ _
        (quiet _ _ _
          (quiet _ _ _ begun (arrive (start no_stores) (acquire (start no_stores) 1) 1 refl refl)
            refl)
          (arrive (acquire (start no_stores) 1) waits 2 refl refl) refl)
        (take_snapshot waits (snapshot waits 1) 1 refl refl) refl)
      (stage (snapshot waits 1) staged_first 1 no_stores no_stores first_stores refl refl) refl

until_second : History groups no_stores staged_second (inserting (2, 5) ∷ [])
unfolding start acquire snapshot publish release perform
until_second =
    quiet _ _ _
      (quiet _ _ _
        (quiet _ _ _
          (quiet _ _ _
            (committed staged_first (publish staged_first 1 first_stores) [] (inserting (2, 5)) 1
              no_stores first_stores until_first refl inserted refl)
            (drop_notify (publish staged_first 1 first_stores) handed 1 2 refl refl refl) refl)
          (retry handed (acquire handed 2) 2 refl refl) refl)
        (take_snapshot (acquire handed 2) (snapshot (acquire handed 2) 2) 2 refl refl) refl)
      (stage (snapshot (acquire handed 2) 2) staged_second 2 first_stores first_stores both_stores
        refl refl)
      refl

history : History groups no_stores last calls
unfolding start acquire snapshot publish release perform
history =
    committed staged_second last (inserting (2, 5) ∷ []) (inserting (1, 5)) 2 first_stores
      both_stores until_second refl inserted_second refl

empty-IsSound : IsSoundInMemory groups IsByteKey (alone groups no_stores)
unfolding Map.get compare_bytes memory_listing
empty-IsSound = record {
  ready =
      IsPrepared-IsReady groups (alone groups no_stores)
        (record { state = _; there = refl; main = (_, refl); indexed = ((_, refl), tt) });
  ordered = ((tt, (tt, tt)), tt);
  consistent = empty-Consistent;
}

history-IsSerial_example :
    (session memory groups (alone groups no_stores) calls ≡ ok (alone groups last.stores))
    × IsSoundInMemory groups IsByteKey (alone groups last.stores)
    × (stored (alone groups last.stores) groups.name
        ≡ spec_session groups (stored (alone groups no_stores) groups.name) calls)
history-IsSerial_example =
    history-IsSerial groups byte_key-IsLawful distinct tests codec to_bytes_returns
      two_bytes_returns no_stores last calls empty-IsSound (omega arith, (omega arith, tt)) history

abbrev log : List Change
log = (no_stores, first_stores) ∷ (first_stores, both_stores) ∷ []

Logged-first :
    Logged no_stores (publish staged_first 1 first_stores) ((no_stores, first_stores) ∷ [])
unfolding start acquire snapshot publish
Logged-first =
    later _ _ _
      (Gate.commit staged_first (publish staged_first 1 first_stores) 1 no_stores first_stores refl
        refl)
      (later _ _ _
        (stage (snapshot waits 1) staged_first 1 no_stores no_stores first_stores refl refl)
        (later _ _ _ (take_snapshot waits (snapshot waits 1) 1 refl refl) (
          later _ _ _ (arrive (acquire (start no_stores) 1) waits 2 refl refl) (
            later _ _ _ (arrive (start no_stores) (acquire (start no_stores) 1) 1 refl refl)
              Logged.begun))))

Logged-last : Logged no_stores last log
unfolding start acquire snapshot publish release
Logged-last = later _ _ _ (Gate.commit staged_second last 2 first_stores both_stores refl refl) (
    later _ _ _
      (stage (snapshot (acquire handed 2) 2) staged_second 2 first_stores first_stores both_stores
        refl refl)
      (later _ _ _ (take_snapshot (acquire handed 2) (snapshot (acquire handed 2) 2) 2 refl refl) (
        later _ _ _ (retry handed (acquire handed 2) 2 refl refl) (
          later _ _ _ (drop_notify (publish staged_first 1 first_stores) handed 1 2 refl refl refl)
            Logged-first))))

commits-IsChain_example :
    IsChain no_stores log last.stores
    × ((i : ℕ) (base staged : NamespacedStores)
        → last.phase i ≡ working base staged
        → last.stores ≡ base)
commits-IsChain_example = commits-IsChain no_stores last log Logged-last

-- A handle on the namespace before the store of the index is prepared.
abbrev main_only : NamespacedState
main_only = record { stores = (main_store, []) ∷ [] }

abbrev unindexed : Namespaces
unindexed = (0x72 ∷ [], main_only) ∷ []

there : Map.get unindexed (0x72 ∷ []) ≡ some main_only
unfolding Map.get compare_bytes
there = refl

absent : Map.get main_only.stores (0x67 ∷ []) ≡ none
unfolding Map.get compare_bytes
absent = refl

abbrev names : List Name
names = main_store ∷ (0x67 ∷ []) ∷ []

stale_commit-panics_example :
    (w : WriteHandle) × (prepared : Namespaces) × (committed : Namespaces) × (write unindexed
        (0x72 ∷ [])
      ≡ ok w)
    × (prepare unindexed (0x72 ∷ []) names ≡ ok prepared)
    × (commit prepared w ≡ ok committed)
    × ((h : ReadHandle) × (s : KvStore) × (read prepared (0x72 ∷ []) ≡ ok h)
        × (open_read h (0x67 ∷ []) ≡ ok s))
    × ((h : ReadHandle) × (read committed (0x72 ∷ []) ≡ ok h) × (open_read h (0x67 ∷ []) ≡ panic))
stale_commit-panics_example =
    stale_commit-panics unindexed (0x72 ∷ []) (0x67 ∷ []) names main_only there absent
      (Memᴰ.tail (Memᴰ.head refl))

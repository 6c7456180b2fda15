-- ===== src/Memory/Available.antt =====
-- backend/memory.rs: what the calls of the memory backend return on stores that have been prepared.
use collette.Prelude.{
  true, ◌≡◌, refl, ◌∙◌, Bool-cases, Option-cases, inl, inr, some, List, [], ◌∷◌, All,
}
use mathlib.Core.Path.{subst}
use collette.Bytes.{Bytes, compare_bytes, ◌=ᵇ◌}
use collette.Outcome.{ok}
use collette.Map
use collette.Map.{Map, is_range}
use collette.Map.Laws.{get-insert}
use collette.Range.{Range, contains}
use collette.Store.{Name, Direction}
use collette.Store.Listing.{all_ok}
use collette.Store.Put.{=ᵇ_refl}
use collette.Store.Available.{Available}
use collette.Memory.{
  memory, Namespaces, NamespacedState, NamespacedStores, KvStore, ReadHandle, WriteHandle, read,
  write, open_read, open_write, close, commit, get, scan, set, remove, prepare, prepared_stores,
  kept_store, in_direction,
}

-- There is a store of the name.
abbrev pub Has : NamespacedStores → Name → Type 0
Has stores n = (s : KvStore) × (Map.get stores n ≡ some s)

-- There is a store of the name in the namespace.
abbrev pub HasIn : Namespaces → Name → Name → Type 0
HasIn db n m = (state : NamespacedState) × (Map.get db n ≡ some state) × Has state.stores m

Has-insert_self :
    (stores : NamespacedStores) (m : Name) (s : KvStore) → Has (Map.insert stores m s) m
Has-insert_self stores m s = (s, rw (get-insert, =ᵇ_refl))

pub Has-insert :
    (stores : NamespacedStores) (m n : Name) (s : KvStore)
    → Has stores n
    → Has (Map.insert stores m s) n
Has-insert stores m n s (t, e) =
    elim (Bool-cases (m =ᵇ n)) as (λ _. Has (Map.insert stores m s) n) [
      | inl h ↦ (s, get-insert stores m n s ∙ rw h)
      | inr h ↦ (t, get-insert stores m n s ∙ rw h e)
    ]

module _ (current : NamespacedStores) where
  prepared-keeps :
      (names : List Name) (next : NamespacedStores) (n : Name)
      → Has next n
      → Has (prepared_stores current names next) n
  unfolding prepared_stores
  prepared-keeps [] next n h = h
  prepared-keeps (m ∷ names) next n h =
      prepared-keeps names (Map.insert next m (kept_store current m)) n
        (Has-insert next m n (kept_store current m) h)

  pub prepared-All :
      (names : List Name) (next : NamespacedStores)
      → All (λ n. Has (prepared_stores current names next) n) names
  unfolding prepared_stores
  prepared-All [] next = tt
  prepared-All (m ∷ names) next =
      let next' = Map.insert next m (kept_store current m) in
      (
        prepared-keeps names next' m (Has-insert_self next m (kept_store current m)),
        prepared-All names next',
      )

-- The state that has just been inserted.
HasIn-inserted :
    (db : Namespaces) (n m : Name) (stores : NamespacedStores)
    → Has stores m
    → HasIn (Map.insert db n (record { stores = stores })) n m
HasIn-inserted db n m stores h =
    (record { stores = stores }, get-insert db n n (record { stores = stores }) ∙ rw =ᵇ_refl, h)

All-inserted :
    (db : Namespaces) (n : Name) (stores : NamespacedStores) (names : List Name)
    → All (λ m. Has stores m) names
    → All (HasIn (Map.insert db n (record { stores = stores })) n) names
All-inserted db n stores [] h = tt
All-inserted db n stores (m ∷ names) h =
    (HasIn-inserted db n m stores h.0, All-inserted db n stores names h.1)

pub prepare_returns :
    (db : Namespaces) (n : Name) (names : List Name)
    → (db' : Namespaces) × (prepare db n names ≡ ok db') × All (HasIn db' n) names
unfolding prepare
prepare_returns db n names =
    elim (Option-cases (Map.get db n))
      as (λ _. (db' : Namespaces) × (prepare db n names ≡ ok db') × All (HasIn db' n) names) [
        | inl h ↦ (_, rw (h, prepare), All-inserted db n _ names (prepared-All [] names []))
        | inr (state, h) ↦
            (_, rw (h, prepare), All-inserted db n _ names (prepared-All state.stores names []))
      ]

-- A store of the namespace stands in its state.
pub Has-state :
    (db : Namespaces) (n : Name) (state : NamespacedState) (k : Name)
    → Map.get db n ≡ some state
    → HasIn db n k
    → Has state.stores k
Has-state db n state k e (t, e', h) =
    let same : t ≡ state = cc in subst (λ (x : NamespacedState). Has x.stores k) same h

pub opened_read :
    (db : Namespaces) (n m : Name)
    → HasIn db n m
    → (h : ReadHandle) × (read db n ≡ ok h) × ((k : Name) → HasIn db n k → Has h.stores k)
unfolding read
opened_read db n m (state, e, _) =
    (record { stores = state.stores }, rw e refl, λ k h. Has-state db n state k e h)

pub opened_write :
    (db : Namespaces) (n m : Name)
    → HasIn db n m
    → (w : WriteHandle) × (write db n ≡ ok w)
      × (w.namespace ≡ n)
      × ((k : Name) → HasIn db n k → Has w.staged k)
unfolding write
opened_write db n m (state, e, _) = (
  record { namespace = n; staged = state.stores },
  rw e refl,
  refl,
  λ k h. Has-state db n state k e h,
)

pub committed :
    (db : Namespaces) (n : Name) (w : WriteHandle) (k : Name)
    → w.namespace ≡ n
    → Has w.staged k
    → HasIn (Map.insert db w.namespace (record { stores = w.staged })) n k
committed db n w k e h =
    subst (λ i. HasIn (Map.insert db w.namespace (record { stores = w.staged })) i k) e
      (HasIn-inserted db w.namespace k w.staged h)

pub scan_returns :
    (store : KvStore) (r : Range Bytes) (d : Direction)
    → is_range r ≡ true
    → (entries : List (Bytes × Bytes)) × (scan store r d ≡ ok (all_ok entries))
unfolding scan Map.range
scan_returns store r d h =
    (in_direction d (Map.filter_keys (contains compare_bytes r) store), rw h refl)

unfoldable pub memory_available : Available memory
unfolding open_read open_write close commit get set remove
memory_available = record {
  Has = HasIn;
  ReadHas = λ h n. Has h.stores n;
  WriteHas = λ w n. Has w.staged n;
  BegunFor = λ db n w. w.namespace ≡ n;
  prepare_returns = prepare_returns;
  read_returns = opened_read;
  open_read_returns = λ h n (s, e). (s, rw e refl);
  get_returns = λ s k. (_, refl);
  scan_returns = scan_returns;
  write_returns = opened_write;
  open_write_returns = λ w n (s, e). (s, rw e refl);
  get_staged_returns = λ s k. (_, refl);
  set_returns = λ s k v. (_, refl);
  remove_returns = λ s k. (_, refl);
  close_keeps = λ w n s k h. Has-insert w.staged n k s h;
  close_begun = λ db n m w s h. h;
  commit_returns = λ db n w e. (_, refl, λ k h. committed db n w k e h);
}

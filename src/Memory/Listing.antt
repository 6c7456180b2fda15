-- ===== src/Memory/Listing.antt =====
-- The scans of the in-memory backend list the store: its stores stay sorted, and a scan filters
-- and maybe reverses one.
use collette.Prelude.{
  ◌≡◌, refl, sym, ◌∙◌, true, Option, some, none, List, [], ◌∷◌, String, arith, All, Bool-cases, inl,
  inr,
}
use collette.Prelude.Listings.{IsOrdered-weaken}
use mathlib.Core.List.{Memᴰ}
use mathlib.Core.Path.{subst}
use collette.Bytes.{Bytes, compare_bytes}
use collette.Outcome.{Outcome, ok, unwrap, ok_injective, map_ok_injective}
use collette.Range.{Range, contains}
use collette.Map
use collette.Map.{Map, filter_keys}
use collette.Map.Laws.{
  IsSorted, insert-IsSorted, remove-IsSorted, filter_keys-IsSorted, get-filter_keys,
}
use collette.Map.Members.{get-Mem, Mem-get, IsSorted-IsOrdered, All-insert, All-get}
use collette.Store.{Direction, left_to_right, right_to_left, BackendError, Name}
use collette.Store.Listing.{Lists, reverse-Lists, ScansInOrder}
use collette.Memory.{
  scan, scan_staged, KvStore, NamespacedStores, NamespacedState, Namespaces, ReadHandle,
  WriteHandle, memory, read, write, prepare, prepared_stores, kept_store, open_read, open_write,
  close, commit, set, remove, in_direction,
}
use collette.Memory.Contract.{memory_law, content}
use collette.Store.Listing.{all_ok}

module _ (store : KvStore) (r : Range Bytes) (d : Direction) where
  abbrev within : List (Bytes × Bytes)
  within = filter_keys (contains compare_bytes r) store

  scan_results :
      (results : List (Outcome String (Bytes × Bytes)))
      → scan store r d ≡ ok results
      → results ≡ all_ok (in_direction d within)
  unfolding scan Map.range
  scan_results results e =
      elim (Bool-cases (Map.is_range r)) as (λ _. results ≡ all_ok (in_direction d within)) [
        | inl h ↦ let q = rw h at e in cc
        | inr h ↦ let q = rw h at e in cc
      ]

  pub scan_entries :
      (l : List (Bytes × Bytes)) → scan store r d ≡ ok (all_ok l) → in_direction d within ≡ l
  scan_entries l e = map_ok_injective (in_direction d within) l (sym (scan_results (all_ok l) e))

module _ (s : KvStore) (r : Range Bytes) (sorted : IsSorted s) where
  -- An entry of the filtered store is one of the store in the range.
  within_sound :
      {k v : Bytes}
      → Memᴰ (k, v) (filter_keys (contains compare_bytes r) s)
      → (contains compare_bytes r k ≡ true) × (Map.get s k ≡ some v)
  within_sound {k} i =
      let p = contains compare_bytes r in
      let e =
        sym (get-filter_keys p s k)
        ∙ Mem-get (filter_keys p s) (filter_keys-IsSorted p s sorted) i in
      elim (Bool-cases (p k)) [ inl q ↦ ground arith | inr q ↦ ground arith ]

  within_complete :
      (k : Bytes) {v : Bytes}
      → contains compare_bytes r k ≡ true
      → Map.get s k ≡ some v
      → Memᴰ (k, v) (filter_keys (contains compare_bytes r) s)
  within_complete k c e =
      get-Mem (filter_keys (contains compare_bytes r) s) k
        (get-filter_keys (contains compare_bytes r) s k ∙ rw c e)

  within-Lists : Lists (content s) r left_to_right (filter_keys (contains compare_bytes r) s)
  within-Lists =
      let f = filter_keys (contains compare_bytes r) s in
      record {
        ordered =
            IsOrdered-weaken f (λ a b h. rw h refl)
              (IsSorted-IsOrdered f (filter_keys-IsSorted (contains compare_bytes r) s sorted));
        sound = λ k v i. within_sound i;
        complete = λ k v c e. within_complete k c e;
      }

  pub in_direction-Lists :
      (d : Direction)
      → Lists (content s) r d (in_direction d (filter_keys (contains compare_bytes r) s))
  unfolding in_direction
  in_direction-Lists left_to_right = within-Lists
  in_direction-Lists right_to_left = reverse-Lists within-Lists

-- Every store is sorted.
abbrev pub SortedStores : NamespacedStores → Type 0
SortedStores stores = All (λ e. IsSorted e.1) stores

abbrev pub SortedState : NamespacedState → Type 0
SortedState state = SortedStores state.stores

abbrev pub SortedNamespaces : Namespaces → Type 0
SortedNamespaces db = All (λ e. SortedState e.1) db

kept_store-IsSorted :
    (current : NamespacedStores) (n : Name) → SortedStores current → IsSorted (kept_store current n)
unfolding kept_store
kept_store-IsSorted current n h = kept (Map.get current n) (λ s e. All-get IsSorted current n h e)
  where
    kept :
        (o : Option KvStore)
        → ((s : KvStore) → o ≡ some s → IsSorted s)
        → IsSorted (elim o [ none ↦ [] | some store ↦ store ])
    kept none h = tt
    kept (some s) h = h s refl

prepared_stores-Sorted :
    (current : NamespacedStores) (names : List Name) (next : NamespacedStores)
    → SortedStores current
    → SortedStores next
    → SortedStores (prepared_stores current names next)
unfolding prepared_stores
prepared_stores-Sorted current [] next c h = h
prepared_stores-Sorted current (n ∷ names) next c h =
    prepared_stores-Sorted current names (Map.insert next n (kept_store current n)) c
      (All-insert IsSorted next n (kept_store current n) h (kept_store-IsSorted current n c))

module _ (db : Namespaces) (n : Name) where
  -- What is put into the map of namespaces.
  pub put_state :
      (state : NamespacedState)
      → SortedNamespaces db
      → SortedState state
      → SortedNamespaces (Map.insert db n state)
  put_state state h s = All-insert SortedState db n state h s

  pub prepared_state :
      (names : List Name) (o : Option NamespacedState) {db' : Namespaces}
      → Map.get db n ≡ o
      → SortedNamespaces db
      → prepare db n names ≡ ok db'
      → SortedNamespaces db'
  unfolding prepare
  prepared_state names none q h e =
      let e' = rw (q, prepare) at e in
      subst SortedNamespaces (ok_injective e') (
        put_state (record { stores = prepared_stores [] names [] }) h
          (prepared_stores-Sorted [] names [] tt tt))
  prepared_state names (some state) q h e =
      let e' = rw (q, prepare) at e in
      subst SortedNamespaces (ok_injective e') (
        put_state (record { stores = prepared_stores state.stores names [] }) h
          (prepared_stores-Sorted state.stores names [] (All-get SortedState db n h q) tt))

  pub seen_state :
      (o : Option NamespacedState) {h : ReadHandle}
      → Map.get db n ≡ o
      → SortedNamespaces db
      → read db n ≡ ok h
      → SortedStores h.stores
  unfolding read
  seen_state none q s e = let e' = rw (q, read) at e in absurd (cc)
  seen_state (some state) q s e =
      let e' = rw (q, read) at e in
      subst (λ (h : ReadHandle). SortedStores h.stores) (ok_injective e')
        (All-get SortedState db n s q)

  pub staged_state :
      (o : Option NamespacedState) {w : WriteHandle}
      → Map.get db n ≡ o
      → SortedNamespaces db
      → write db n ≡ ok w
      → SortedStores w.staged
  unfolding write
  staged_state none q s e = let e' = rw (q, write) at e in absurd (cc)
  staged_state (some state) q s e =
      let e' = rw (q, write) at e in
      subst (λ (w : WriteHandle). SortedStores w.staged) (ok_injective e')
        (All-get SortedState db n s q)

pub opened_store :
    (stores : NamespacedStores) (n : Name) (o : Option KvStore) {s : KvStore}
    → Map.get stores n ≡ o
    → SortedStores stores
    → unwrap {E = BackendError} (Map.get stores n) ≡ ok s
    → IsSorted s
opened_store stores n none q h e = let e' = rw q at e in absurd (cc)
opened_store stores n (some s) q h e =
    let e' = rw q at e in subst IsSorted (ok_injective e') (All-get IsSorted stores n h q)

-- A store that is written to scans as one that is read.
pub same_scan : (s : KvStore) (r : Range Bytes) (d : Direction) → scan s r d ≡ scan_staged s r d
unfolding scan scan_staged
same_scan s r d = refl

-- The stores of the memory backend stay sorted under every call, and its scans list them.
unfoldable pub memory_listing : ScansInOrder memory memory_law
unfolding memory_law open_read open_write close commit set remove
memory_listing = record {
  OkDb = SortedNamespaces;
  OkReadHandle = λ h. SortedStores h.stores;
  OkReadStore = IsSorted;
  OkWriteHandle = λ w. SortedStores w.staged;
  OkWriteStore = IsSorted;
  prepare_keeps = λ d n names h e. prepared_state d n names (Map.get d n) refl h e;
  read_keeps = λ d n h e. seen_state d n (Map.get d n) refl h e;
  open_read_keeps = λ h n s e. opened_store h.stores n (Map.get h.stores n) refl s e;
  write_keeps = λ d n h e. staged_state d n (Map.get d n) refl h e;
  open_write_keeps = λ w n s e. opened_store w.staged n (Map.get w.staged n) refl s e;
  set_keeps = λ s k v h e. subst IsSorted (ok_injective e) (insert-IsSorted s k v h);
  remove_keeps = λ s k h e. subst IsSorted (ok_injective e) (remove-IsSorted s k h);
  close_keeps = λ w n s h k. All-insert IsSorted w.staged n s h k;
  commit_keeps = λ d w h k e.
      subst SortedNamespaces (ok_injective e)
        (put_state d w.namespace (record { stores = w.staged }) h k);
  scan_lem = λ s r d h e.
      subst (Lists (content s) r d) (scan_entries s r d _ e) (in_direction-Lists s r h d);
  scan_staged_lem = λ s r d h e.
      subst (Lists (content s) r d) (scan_entries s r d _ (same_scan s r d ∙ e))
        (in_direction-Lists s r h d);
}

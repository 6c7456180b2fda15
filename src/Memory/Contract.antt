-- ===== src/Memory/Contract.antt =====
-- The in-memory backend keeps the contract of a backend.
use collette.Prelude.{◌≡◌, sym, ap, ◌∙◌, fun_ext, Option, none, some, arith}
use collette.Bytes.{Bytes}
use collette.Outcome.{Outcome, ok, ◌>>=◌, unwrap, ok_injective}
use collette.Map
use collette.Map.{Map}
use collette.Map.Laws.{get-insert, get-remove}
use collette.Store.{Name, BackendError, Content, Contents, IsLawful, put}
use collette.Memory.{
  KvStore, NamespacedStores, NamespacedState, Namespaces, ReadHandle, WriteHandle, memory, read,
  write, open_read, open_write, close, commit, get, set, remove,
}

abbrev pub content : KvStore → Content
content = Map.get

abbrev pub store_content : Option KvStore → Content
store_content none k = none
store_content (some store) k = content store k

abbrev pub contents : NamespacedStores → Contents
contents stores n = store_content (Map.get stores n)

abbrev pub state_contents : Option NamespacedState → Contents
state_contents none n k = none
state_contents (some state) n k = contents state.stores n k

abbrev pub stored : Namespaces → Name → Contents
stored db n = state_contents (Map.get db n)

pub contents-insert :
    (stores : NamespacedStores) (n : Name) (s : KvStore)
    → contents (Map.insert stores n s) ≡ put (contents stores) n (content s)
contents-insert stores n s = fun_ext λ m. fun_ext λ k. ground (arith, get-insert stores n m s)

pub content-insert :
    (s : KvStore) (k v : Bytes) → content (Map.insert s k v) ≡ put (content s) k (some v)
content-insert s k v = fun_ext λ j. get-insert s k j v

pub content-remove : (s : KvStore) (k : Bytes) → content (Map.remove s k) ≡ put (content s) k none
content-remove s k = fun_ext λ j. get-remove s k j

pub stored-insert :
    (db : Namespaces) (n : Name) (st : NamespacedState)
    → stored (Map.insert db n st) ≡ put (stored db) n (contents st.stores)
stored-insert db n st = fun_ext λ m. fun_ext λ j. fun_ext λ k. ground (arith, get-insert db n m st)

abbrev as_read : NamespacedState → Outcome BackendError ReadHandle
as_read state = ok (record { stores = state.stores })

abbrev as_write : Name → NamespacedState → Outcome BackendError WriteHandle
as_write n state = ok (record { namespace = n; staged = state.stores })

pub opened :
    (o : Option KvStore) {s : KvStore}
    → unwrap {E = BackendError} o ≡ ok s
    → content s ≡ store_content o
opened none e = cc
opened (some store) e = ap content (sym (ok_injective e))

pub read_state :
    (o : Option NamespacedState) {h : ReadHandle}
    → (unwrap o >>= as_read) ≡ ok h
    → contents h.stores ≡ state_contents o
read_state none e = cc
read_state (some state) e = ap (λ (h : ReadHandle). contents h.stores) (sym (ok_injective e))

pub write_state :
    (n : Name) (o : Option NamespacedState) {w : WriteHandle}
    → (unwrap o >>= as_write n) ≡ ok w
    → (contents w.staged ≡ state_contents o) × (w.namespace ≡ n)
write_state n none e = absurd (cc)
write_state n (some state) e = (
  ap (λ (w : WriteHandle). contents w.staged) (sym (ok_injective e)),
  ap (λ (w : WriteHandle). w.namespace) (sym (ok_injective e)),
)

-- What the handles and stores of the memory backend hold.
unfoldable pub memory_law : IsLawful memory
unfolding read write open_read open_write close commit get set remove
memory_law = record {
  stored = stored;
  seen = λ h. contents h.stores;
  readable = content;
  staged = λ w. contents w.staged;
  writable = content;
  Begun = λ d n w. w.namespace ≡ n;
  read_lem = λ d n e. read_state (Map.get d n) e;
  open_read_lem = λ h n e. opened (Map.get h.stores n) e;
  get_lem = λ s k e. sym (ok_injective e);
  write_lem = λ d n e. write_state n (Map.get d n) e;
  open_write_lem = λ w n e. opened (Map.get w.staged n) e;
  get_staged_lem = λ s k e. sym (ok_injective e);
  set_lem = λ s k v e. ap content (sym (ok_injective e)) ∙ content-insert s k v;
  remove_lem = λ s k e. ap content (sym (ok_injective e)) ∙ content-remove s k;
  staged-close = λ w n s. contents-insert w.staged n s;
  begun-close = λ d n m w s h. h;
  commit_lem = λ d n w h e.
      ap stored (sym (ok_injective e))
      ∙ stored-insert d w.namespace (record { stores = w.staged })
      ∙ ap (λ m. put (stored d) m (contents w.staged)) h;
}

-- The memory backend keeps the contract of a backend: reads see the committed stores, writes see
-- these and what was written, and a commit publishes the stores of its namespace and no other.
pub memory-IsLawful : IsLawful memory
memory-IsLawful = memory_law

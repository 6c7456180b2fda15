-- ===== src/Collection/Concurrent.antt =====
-- collection.rs over the writer gate of backend/memory.rs: threads that call the methods of one
-- collection. A method takes a write handle at the gate, works on the stores of its snapshot, and
-- commits them or drops the handle.
use collette.Prelude.{ℕ, ◌≡◌, ◌≢◌, refl, sym, ap, ◌∙◌, List, [], ◌∷◌, ◌++◌, All, Ordering}
use mathlib.Core.Path.{subst}
use collette.Bytes.{Bytes}
use collette.Outcome.{Outcome, Error, ok, err, panic, ok_injective, ◌>>=◌}
use collette.Key
use collette.Memory.{memory, Namespaces, NamespacedStores}
use collette.Memory.Gate.{Shared, working, start, publish, Step, commit}
use collette.Memory.Gate.Sound
use collette.Memory.Gate.Sound.{Step-IsSound, start-IsSound}
use collette.Memory.Contract.{stored}
use collette.Collection.{Collection}
use collette.Collection.Consistent.{Distinct, TestsKeys}
use collette.Collection.Runs.{shown_as}
use collette.Collection.Session.{Command, IsValidCommand, perform, session, go_on}
use collette.Collection.InMemory.{IsSoundInMemory}
use collette.Memory.Available.{memory_available}
use collette.Memory.Contract.{memory_law}
use collette.Memory.Listing.{memory_listing}
use collette.Collection.Session.Sound.{session-IsSound}
use collette.Collection.Session.Specified.{spec_session, session-specified}

module _ {R PK : Type 0} (c : Collection R PK) where
  -- The database with the namespace of the collection alone.
  abbrev pub alone : NamespacedStores → Namespaces
  alone stores = (c.name, record { stores = stores }) ∷ []

  -- A call that succeeds on the stores `base` of a snapshot stages these.
  abbrev pub Stages : Command R PK → NamespacedStores → NamespacedStores → Type 0
  Stages call base staged = perform memory c (alone base) call ≡ ok (alone staged)

  -- The steps of the threads from the stores `initial` on, with the calls that have committed, in
  -- the order of their commits.
  pub data History (initial : NamespacedStores) : Shared → List (Command R PK) → Type 0 where
    begun : History initial (start initial) []
    quiet :
        (g g' : Shared) (calls : List (Command R PK))
        → History initial g calls
        → Step g g'
        → g'.stores ≡ g.stores
        → History initial g' calls
    committed :
        (g g' : Shared) (calls : List (Command R PK)) (call : Command R PK) (i : ℕ)
        (base staged : NamespacedStores)
        → History initial g calls
        → g.phase i ≡ working base staged
        → Stages call base staged
        → g' ≡ publish g i staged
        → History initial g' (calls ++ call ∷ [])

  module _ (initial : NamespacedStores) where
    History-IsSound :
        (g : Shared) (calls : List (Command R PK)) → History initial g calls → Sound.IsSound g
    History-IsSound _ _ begun = start-IsSound initial
    History-IsSound _ _ (quiet g g' calls h s e) = Step-IsSound g g' s (History-IsSound g calls h)
    History-IsSound _ _ (committed g g' calls call i base staged h p w e) =
        Step-IsSound g g' (commit g g' i base staged p e) (History-IsSound g calls h)

  -- A session in two parts.
  continued-append :
      (db : Namespaces) (calls more : List (Command R PK)) (m : Outcome Error Namespaces)
      → ((d : Namespaces)
          → session memory c d (calls ++ more)
            ≡ (session memory c d calls >>= λ d'. session memory c d' more))
      → go_on memory c db (calls ++ more) m
        ≡ (go_on memory c db calls m >>= λ d'. session memory c d' more)
  unfolding session
  continued-append db calls more (ok d) rest = rest d
  continued-append db calls more (err e) rest = rest db
  continued-append db calls more panic rest = refl

  session-append :
      (db : Namespaces) (calls more : List (Command R PK))
      → session memory c db (calls ++ more)
        ≡ (session memory c db calls >>= λ d. session memory c d more)
  unfolding session
  session-append db [] more = refl
  session-append db (call ∷ calls) more =
      continued-append db calls more (perform memory c db call) (λ d. session-append d calls more)

  session-one :
      (d d' : Namespaces) (call : Command R PK)
      → perform memory c d call ≡ ok d'
      → session memory c d (call ∷ []) ≡ ok d'
  unfolding session
  session-one d d' call e = ap (go_on memory c d []) e

  -- The threads leave what the calls leave, one after the other.
  serial :
      (initial : NamespacedStores) (g : Shared) (calls : List (Command R PK))
      → History initial g calls
      → session memory c (alone initial) calls ≡ ok (alone g.stores)
  unfolding session start publish
  serial initial _ _ begun = refl
  serial initial _ _ (quiet g g' calls h s e) =
      serial initial g calls h ∙ ap (λ x. ok (alone x)) (sym e)
  serial initial _ _ (committed g g' calls call i base staged h p w e) =
      let q : g.stores ≡ base = (History-IsSound initial g calls h).current i base staged p in
      session-append (alone initial) calls (call ∷ [])
      ∙ ap (λ m. m >>= λ d. session memory c d (call ∷ [])) (serial initial g calls h)
      ∙ session-one (alone g.stores) (alone staged) call
          (ap (λ x. perform memory c (alone x) call) q ∙ w)
      ∙ ap (λ (x : Shared). ok (alone x.stores)) (sym e)

module _ {R PK : Type 0} (c : Collection R PK) {cmp : PK → PK → Ordering} {ValidKey : PK → Type 0}
    (keys : Key.IsLawful c.pk_ops cmp ValidKey) (distinct : Distinct c.indexes)
    (tests : All TestsKeys c.indexes)
    (codec : (r : R) (bytes : Bytes)
      → c.item.to_bytes r ≡ ok bytes
      → c.item.from_bytes bytes ≡ ok r)
    (to_bytes_returns : (r : R) → c.item.to_bytes r ≢ panic)
    (from_bytes_returns : (bytes : Bytes) → c.item.from_bytes bytes ≢ panic) where
  -- For lawful primary keys, different index names, an exact test of physical keys, and a codec
  -- that round-trips and does not panic: whatever steps the threads take that write to one
  -- namespace of a memory backend, which holds a prepared and consistent collection with sorted
  -- stores, where every committed handle was filled by one call of an insert, update, save or
  -- remove of a valid key on its snapshot: the stores are always those that the committed calls
  -- leave one after the other in the order of their commits, the collection is sound, and it holds
  -- what the specification of these calls leaves.
  pub history-IsSerial :
      (initial : NamespacedStores) (g : Shared) (calls : List (Command R PK))
      → IsSoundInMemory c ValidKey (alone c initial)
      → All (IsValidCommand c ValidKey) calls
      → History c initial g calls
      → (session memory c (alone c initial) calls ≡ ok (alone c g.stores))
        × IsSoundInMemory c ValidKey (alone c g.stores)
        × (stored (alone c g.stores) c.name
            ≡ spec_session c (stored (alone c initial) c.name) calls)
  unfolding memory_law
  history-IsSerial initial g calls sound valid h =
      let e = serial c initial g calls h in
      let (left, e', sound') =
        session-IsSound memory memory_law memory_available memory_listing c keys distinct tests
          codec to_bytes_returns from_bytes_returns (alone c initial) calls sound valid in
      (
        e,
        subst (IsSoundInMemory c ValidKey) (ok_injective (sym e' ∙ e)) sound',
        ok_injective (
            ap (shown_as (λ d. stored d c.name)) (sym e)
            ∙ session-specified memory memory_law memory_available memory_listing c keys distinct
                tests codec to_bytes_returns from_bytes_returns (alone c initial) calls sound
                valid),
      )

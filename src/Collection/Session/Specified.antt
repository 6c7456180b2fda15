-- ===== src/Collection/Session/Specified.antt =====
-- collection.rs: calls of the methods of a collection, and the specification of the calls.
use collette.Prelude.{◌≡◌, ◌≢◌, refl, List, [], ◌∷◌, All, Ordering}
use mathlib.Core.Path.{subst}
use collette.Bytes.{Bytes}
use collette.Outcome.{Outcome, Error, ok, err, panic}
use collette.Key
use collette.Store.{MultiStore, IsLawful, Contents}
use collette.Store.Listing.{ScansInOrder}
use collette.Store.Available.{Available}
use collette.Collection.{Collection}
use collette.Collection.Consistent.{Distinct, TestsKeys}
use collette.Collection.Spec.{spec_insert, spec_update, spec_save, spec_remove}
use collette.Collection.Runs.{Runs, returns, fails, shown_as}
use collette.Collection.Available.Methods.{
  IsReady, shown-insert, shown-update, shown-save, shown-remove,
}
use collette.Collection.Session.{
  Command, inserting, updating, saving, removing, IsValidCommand, perform, session, go_on,
}
use collette.Collection.Session.Sound.{IsSound, perform-IsSound}

-- The specification of a call, and of calls in order: one that fails changes nothing.
unfoldable spec_perform :
    {R PK : Type 0} → Collection R PK → Contents → Command R PK → Outcome Error Contents
spec_perform c ct (inserting value) = spec_insert c ct value
spec_perform c ct (updating value) = spec_update c ct value
spec_perform c ct (saving value) = spec_save c ct value
spec_perform c ct (removing pk) = spec_remove c ct pk

abbrev else_kept : Contents → Outcome Error Contents → Contents
else_kept ct (ok ct') = ct'
else_kept ct (err e) = ct
else_kept ct panic = ct

unfoldable pub spec_session :
    {R PK : Type 0} → Collection R PK → Contents → List (Command R PK) → Contents
unfolding spec_perform
spec_session c ct [] = ct
spec_session c ct (call ∷ calls) = spec_session c (else_kept ct (spec_perform c ct call)) calls

module _ (b : MultiStore) (law : IsLawful b) (av : Available b) (l : ScansInOrder b law)
    {R PK : Type 0} (c : Collection R PK) {cmp : PK → PK → Ordering} {ValidKey : PK → Type 0}
    (keys : Key.IsLawful c.pk_ops cmp ValidKey) (distinct : Distinct c.indexes)
    (tests : All TestsKeys c.indexes)
    (codec : (r : R) (bytes : Bytes)
      → c.item.to_bytes r ≡ ok bytes
      → c.item.from_bytes bytes ≡ ok r)
    (to_bytes_returns : (r : R) → c.item.to_bytes r ≢ panic)
    (from_bytes_returns : (bytes : Bytes) → c.item.from_bytes bytes ≢ panic) where
  shown-perform :
      (db : b.Db) (call : Command R PK)
      → IsReady b av c db
      → shown_as (λ d. law.stored d c.name) (perform b c db call)
        ≡ spec_perform c (law.stored db c.name) call
  unfolding perform spec_perform
  shown-perform db (inserting value) p =
      shown-insert b av c to_bytes_returns from_bytes_returns db p law value
  shown-perform db (updating value) p =
      shown-update b av c to_bytes_returns from_bytes_returns db p law value
  shown-perform db (saving value) p =
      shown-save b av c to_bytes_returns from_bytes_returns db p law value
  shown-perform db (removing pk) p =
      shown-remove b av c to_bytes_returns from_bytes_returns db p law pk

  go_on-specified :
      (db : b.Db) (calls : List (Command R PK)) {m : Outcome Error b.Db}
      (specified : Outcome Error Contents)
      → IsSound b law av l c ValidKey db
      → ((d : b.Db)
          → IsSound b law av l c ValidKey d
          → shown_as (λ d. law.stored d c.name) (session b c d calls)
            ≡ ok (spec_session c (law.stored d c.name) calls))
      → Runs (IsSound b law av l c ValidKey) m
      → shown_as (λ d. law.stored d c.name) m ≡ specified
      → shown_as (λ d. law.stored d c.name) (go_on b c db calls m)
        ≡ ok (spec_session c (else_kept (law.stored db c.name) specified) calls)
  unfolding session
  go_on-specified db calls specified h next (returns d k) e =
      subst
        (λ o.
          shown_as (λ d. law.stored d c.name) (session b c d calls)
          ≡ ok (spec_session c (else_kept (law.stored db c.name) o) calls))
        e (next d k)
  go_on-specified db calls specified h next (fails t q) e =
      subst
        (λ o.
          shown_as (λ d. law.stored d c.name) (session b c db calls)
          ≡ ok (spec_session c (else_kept (law.stored db c.name) o) calls))
        e (next db h)

  -- For lawful primary keys, different index names, an exact test of physical keys, and a codec
  -- that round-trips and does not panic: over a backend that keeps its contract, is available, and
  -- lists its stores in order, any sequence of inserts, updates, saves and removes of valid keys
  -- on a sound collection, which has its stores and in which records and indexes agree, leaves in
  -- its namespace what the specification of the calls leaves, where a call that fails changes
  -- nothing.
  pub session-specified :
      (db : b.Db) (calls : List (Command R PK))
      → IsSound b law av l c ValidKey db
      → All (IsValidCommand c ValidKey) calls
      → shown_as (λ d. law.stored d c.name) (session b c db calls)
        ≡ ok (spec_session c (law.stored db c.name) calls)
  unfolding session spec_session
  session-specified db [] h v = refl
  session-specified db (call ∷ calls) h v =
      go_on-specified db calls (spec_perform c (law.stored db c.name) call) h
        (λ d k. session-specified d calls k v.1)
        (perform-IsSound b law av l c keys distinct tests codec to_bytes_returns from_bytes_returns
          db call h v.0)
        (shown-perform db call h.ready)

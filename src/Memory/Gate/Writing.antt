-- ===== src/Memory/Gate/Writing.antt =====
-- backend/memory.rs: when `write` returns at the gate, and with which handle.
use collette.Prelude.{ℕ, ◌≡◌, ◌↔◌, refl, true, false, some, arith, Bool-cases, inl, inr}
use collette.Map
use collette.Memory.{NamespacedStores, Namespaces, WriteHandle, write}
use collette.Memory.Gate.{
  Shared, idle, waiting, working, has_permit, start, acquire, snapshot, write_alone, Run,
}
use collette.Store.{Name}
use collette.Outcome.{ok}
use collette.Memory.Gate.Sound.{reached-IsSound}

module _ (stores : NamespacedStores) (g : Shared) (r : Run (start stores) g) (i : ℕ)
    (e : g.phase i ≡ idle) (db : Namespaces) (n : Name)
    (held : Map.get db n ≡ some (record { stores = g.stores })) where
  -- What the call returns at the gate, and in the database that one thread sees.
  abbrev Returned : Type 0
  Returned =
      (g' : Shared) × (w : WriteHandle) × (write_alone g i ≡ some g')
      × (write db n ≡ ok w)
      × (g'.phase i ≡ working g.stores w.staged)

  opened : g.open_flag ≡ false → Returned
  unfolding write_alone acquire snapshot write
  opened f = (
    snapshot (acquire g i) i,
    record { namespace = n; staged = g.stores },
    ground arith,
    rw held refl,
    ground arith,
  )

  returned-open : (g' : Shared) → write_alone g i ≡ some g' → g.open_flag ≡ false
  unfolding write_alone acquire
  returned-open g' q = ground arith

  waits-closed : (acquire g i).phase i ≡ waiting → g.open_flag ≡ true
  unfolding acquire
  waits-closed q = ground arith

  closed-waits : g.open_flag ≡ true → (acquire g i).phase i ≡ waiting
  unfolding acquire
  closed-waits f = ground arith

  -- From the start of a namespace, whatever steps the threads have taken: a call of write by a
  -- thread that is not at the gate returns, while no other thread moves, exactly if no thread
  -- holds a permit, and then with the handle that write returns on a database with the stores of
  -- the namespace; and it goes into the wait exactly if a thread holds a permit.
  pub write-returns :
      (Returned ↔ ((k : ℕ) → has_permit (g.phase k) ≡ false))
      × (((acquire g i).phase i ≡ waiting) ↔ ((k : ℕ) × (has_permit (g.phase k) ≡ true)))
  write-returns =
      let s = reached-IsSound stores g r in
      (
        (
          λ (g', w, q, _, _) k. let f = returned-open g' q in ground (arith, s.counted k),
          λ none_holds. elim (Bool-cases g.open_flag) [
            | inl f ↦ let (k, h) = s.owned f in let p = none_holds k in absurd (cc)
            | inr f ↦ opened f
          ],
        ),
        (λ q. s.owned (waits-closed q), λ (k, h). closed-waits (s.counted k h)),
      )

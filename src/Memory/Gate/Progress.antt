-- ===== src/Memory/Gate/Progress.antt =====
-- backend/memory.rs: how a thread that waits at the writer gate is let in.
use collette.Prelude.{ℕ, ◌≡◌, refl, Bool, true, false, inl, inr, Bool-cases, arith}
use collette.Memory.{NamespacedStores}
use collette.Memory.Gate.{
  Shared, Phase, idle, waiting, woken, entered, working, published, has_permit, can_drop, start,
  moved, acquire, snapshot, release, Step, arrive, retry, wake, take_snapshot, stage, commit,
  drop_alone, drop_notify, Run,
}
use collette.Memory.Gate.Sound.{reached-IsSound}

-- A step of a thread that has a permit or was woken: none that arrives, and no wait that ends for
-- no reason.
abbrev pub is_driven : {g h : Shared} → Step g h → Bool
is_driven (arrive _ _ _ _ _) = false
is_driven (retry _ _ _ _ _) = true
is_driven (wake _ _ _ _ _) = false
is_driven (take_snapshot _ _ _ _ _) = true
is_driven (stage _ _ _ _ _ _ _ _) = true
is_driven (commit _ _ _ _ _ _ _) = true
is_driven (drop_alone _ _ _ _ _ _) = true
is_driven (drop_notify _ _ _ _ _ _ _) = true

-- Any number of such steps.
pub data Driven : Shared → Shared → Type 0 where
  done : (g : Shared) → Driven g g
  drive : (g h g' : Shared) (st : Step g h) → is_driven st ≡ true → Driven h g' → Driven g g'

-- Some run of such steps leads the thread to its permit.
abbrev pub CanEnter : Shared → ℕ → Type 0
CanEnter g i = (g' : Shared) × Driven g g' × (g'.phase i ≡ entered)

before : {g h : Shared} {i : ℕ} (st : Step g h) → is_driven st ≡ true → CanEnter h i → CanEnter g i
before {g} {h} st d c = (c.0, drive g h c.0 st d c.1, c.2)

enter : (g : Shared) (i : ℕ) → g.phase i ≡ woken → g.open_flag ≡ false → CanEnter g i
unfolding acquire
enter g i e f = (
  acquire g i,
  drive g (acquire g i) (acquire g i) (retry g _ i e refl) refl (done _),
  ground arith,
)

module _ (g : Shared) (i : ℕ) (e : g.phase i ≡ waiting) where
  -- A thread that can drop its permit wakes the waiting one, which enters.
  hand_over : (k : ℕ) → can_drop (g.phase k) ≡ true → CanEnter g i
  unfolding release
  hand_over k c =
      before (drop_notify g (moved (release g k) i woken) k i c e refl) refl
        (enter (moved (release g k) i woken) i (ground arith) refl)

-- A thread with a permit comes to where it can drop it.
handed :
    (g : Shared) (i k : ℕ) (p : Phase)
    → g.phase i ≡ waiting
    → g.phase k ≡ p
    → has_permit p ≡ true
    → CanEnter g i
unfolding snapshot
handed g i k idle e q h = cc
handed g i k waiting e q h = cc
handed g i k woken e q h = cc
handed g i k entered e q h =
    before (take_snapshot g (snapshot g k) k q refl) refl
      (hand_over (snapshot g k) i (ground arith) k (ground arith))
handed g i k (working base staged) e q h = hand_over g i e k (rw q refl)
handed g i k published e q h = hand_over g i e k (rw q refl)

-- With the gate open, a woken thread enters first.
let_in :
    (g : Shared) (i j : ℕ)
    → g.open_flag ≡ false
    → g.phase i ≡ waiting
    → g.phase j ≡ woken
    → CanEnter g i
unfolding acquire
let_in g i j f e w =
    before (retry g (acquire g j) j w refl) refl
      (handed (acquire g j) i j entered (ground arith) (ground arith) refl)

module _ (stores : NamespacedStores) (g : Shared) (r : Run (start stores) g) where
  -- From the start of a namespace, whatever steps the threads have taken, if a thread waits at the
  -- writer gate, then the threads that have a permit or were woken can let it in by their own
  -- steps: in some run in which no thread arrives and no wait ends without a notification, it gets
  -- a permit.
  pub waiting-CanEnter : (i : ℕ) → g.phase i ≡ waiting → CanEnter g i
  waiting-CanEnter i e =
      let s = reached-IsSound stores g r in
      elim (Bool-cases g.open_flag) [
        | inl f ↦ let (k, h) = s.owned f in handed g i k (g.phase k) e refl h
        | inr f ↦ let (j, w) = s.wakes f i e in let_in g i j f e w
      ]

-- ===== src/Memory/Gate.antt =====
-- backend/memory.rs: the gate at which the writers of one namespace wait, and how their handles
-- come and go, as steps of numbered threads. A step is what a thread does between two releases of
-- a lock, and a wait on the condition variable may end for no reason. A `prepare` of the namespace,
-- which does not pass the gate, is no step.
pub mod Sound
pub mod Progress
pub mod Writing
pub mod Commits
use collette.Prelude.{Option, none, some, ℕ, ◌≡◌, ◌≢◌, Bool, true, false, if◌then◌else◌, ◌==◌}
use collette.Memory.{NamespacedStores}

-- Where a thread is: not at the gate; in `wait`, in it and woken; with a permit, before it has a
-- snapshot; with a write handle, whose snapshot and staged stores are kept; and behind its commit.
pub data Phase : Type 0 where
  idle waiting woken entered : Phase
  working : NamespacedStores → NamespacedStores → Phase
  published : Phase

-- The thread holds a `WriterPermit`.
abbrev pub has_permit : Phase → Bool
has_permit idle = false
has_permit waiting = false
has_permit woken = false
has_permit entered = true
has_permit (working base staged) = true
has_permit published = true

-- The permit goes with the handle: when this is dropped, or at the end of its commit.
abbrev pub can_drop : Phase → Bool
can_drop idle = false
can_drop waiting = false
can_drop woken = false
can_drop entered = false
can_drop (working base staged) = true
can_drop published = true

-- `WriterGate` and the stores of its `NamespacedState`, with the phases of the threads.
pub record Shared : Type 0 where
  pub open_flag : Bool
  pub stores : NamespacedStores
  pub phase : ℕ → Phase

abbrev pub update : (ℕ → Phase) → ℕ → Phase → ℕ → Phase
update phase i p j = if i == j then p else phase j

unfoldable pub start : NamespacedStores → Shared
start stores = record { open_flag = false; stores = stores; phase = λ i. idle }

abbrev pub moved : Shared → ℕ → Phase → Shared
moved g i p = record g { phase = update g.phase i p }

-- `WriterGate::acquire`, from taking the lock to releasing it, in the wait or with the permit.
unfoldable pub acquire : Shared → ℕ → Shared
acquire g i =
    if g.open_flag
    then moved g i waiting
    else record g { open_flag = true; phase = update g.phase i entered }

-- The snapshot of `write`.
unfoldable pub snapshot : Shared → ℕ → Shared
snapshot g i = moved g i (working g.stores g.stores)

abbrev is_entered : Phase → Bool
is_entered idle = false
is_entered waiting = false
is_entered woken = false
is_entered entered = true
is_entered (working base staged) = false
is_entered published = false

-- `write`, while no other thread moves: `none` if it stays in the wait.
unfoldable pub write_alone : Shared → ℕ → Option Shared
unfolding acquire snapshot
write_alone g i =
    let g' = acquire g i in if is_entered (g'.phase i) then some (snapshot g' i) else none

-- `commit`
unfoldable pub publish : Shared → ℕ → NamespacedStores → Shared
publish g i staged = record g { stores = staged; phase = update g.phase i published }

-- `WriterPermit::drop`, but for the thread that it wakes.
unfoldable pub release : Shared → ℕ → Shared
release g i = record g { open_flag = false; phase = update g.phase i idle }

pub data Step : Shared → Shared → Type 0 where
  arrive : (g g' : Shared) (i : ℕ) → g.phase i ≡ idle → g' ≡ acquire g i → Step g g'
  retry : (g g' : Shared) (i : ℕ) → g.phase i ≡ woken → g' ≡ acquire g i → Step g g'
  wake : (g g' : Shared) (i : ℕ) → g.phase i ≡ waiting → g' ≡ moved g i woken → Step g g'
  take_snapshot : (g g' : Shared) (i : ℕ) → g.phase i ≡ entered → g' ≡ snapshot g i → Step g g'
  stage :
      (g g' : Shared) (i : ℕ) (base staged staged' : NamespacedStores)
      → g.phase i ≡ working base staged
      → g' ≡ moved g i (working base staged')
      → Step g g'
  commit :
      (g g' : Shared) (i : ℕ) (base staged : NamespacedStores)
      → g.phase i ≡ working base staged
      → g' ≡ publish g i staged
      → Step g g'
  -- `notify_one` with no thread in the wait, and with one.
  drop_alone :
      (g g' : Shared) (i : ℕ)
      → can_drop (g.phase i) ≡ true
      → ((j : ℕ) → g.phase j ≢ waiting)
      → g' ≡ release g i
      → Step g g'
  drop_notify :
      (g g' : Shared) (i j : ℕ)
      → can_drop (g.phase i) ≡ true
      → g.phase j ≡ waiting
      → g' ≡ moved (release g i) j woken
      → Step g g'

-- Any number of steps.
pub data Run : Shared → Shared → Type 0 where
  here : (g : Shared) → Run g g
  next : (g h g' : Shared) → Step g h → Run h g' → Run g g'

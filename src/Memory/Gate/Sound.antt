-- ===== src/Memory/Gate/Sound.antt =====
-- The invariant of the writer gate.
use collette.Prelude.{◌≢◌, sym, Bool-cases, inl, inr, ℕ, ◌≡◌, refl, true, false, arith}
use mathlib.Core.Path.{subst}
use collette.Memory.{NamespacedStores}
use collette.Memory.Gate.{
  Shared, Phase, idle, waiting, woken, entered, working, published, has_permit, can_drop, start,
  moved, acquire, snapshot, publish, release, Step, arrive, retry, wake, take_snapshot, stage,
  commit, drop_alone, drop_notify, Run, here, next,
}

-- The flag is up exactly while a thread has a permit, no two have one, a wait that could end is
-- seen by a woken thread, and a handle's snapshot is what is published.
pub record IsSound (g : Shared) : Type 0 where
  pub counted : (i : ℕ) → has_permit (g.phase i) ≡ true → g.open_flag ≡ true
  pub unique : (i j : ℕ) → has_permit (g.phase i) ≡ true → has_permit (g.phase j) ≡ true → i ≡ j
  pub owned : g.open_flag ≡ true → (i : ℕ) × (has_permit (g.phase i) ≡ true)
  pub wakes : g.open_flag ≡ false → (i : ℕ) → g.phase i ≡ waiting → (j : ℕ) × (g.phase j ≡ woken)
  pub current :
      (i : ℕ) (base staged : NamespacedStores) → g.phase i ≡ working base staged → g.stores ≡ base

permit_of_drop : (p : Phase) → can_drop p ≡ true → has_permit p ≡ true
permit_of_drop idle c = cc
permit_of_drop waiting c = cc
permit_of_drop woken c = cc
permit_of_drop entered c = refl
permit_of_drop (working base staged) c = refl
permit_of_drop published c = refl

idle-ne-waiting : ◌≢◌ {A = Phase} idle waiting
idle-ne-waiting e = cc

idle-ne-working : {base staged : NamespacedStores} → idle ≢ working base staged
idle-ne-working e = cc

pub start-IsSound : (stores : NamespacedStores) → IsSound (start stores)
unfolding start
start-IsSound stores = record {
  counted = λ i e. cc;
  unique = λ i j e. absurd (cc);
  owned = λ e. absurd (cc);
  wakes = λ e i w. absurd (idle-ne-waiting w);
  current = λ i base staged e. absurd (idle-ne-working e);
}

module _ (g : Shared) (s : IsSound g) (i : ℕ) where
  acquire-IsSound : has_permit (g.phase i) ≡ false → IsSound (acquire g i)
  unfolding acquire
  acquire-IsSound e = record {
    counted = λ j. ground (arith, s.counted j);
    unique = λ j k. ground (arith, s.counted j, s.counted k, s.unique j k);
    owned = λ h. elim (Bool-cases g.open_flag) [
      | inl q ↦ ((s.owned q).0, ground (arith, (s.owned q).1))
      | inr q ↦ (i, ground arith)
    ];
    wakes = λ h j w. ground arith;
    current = λ j base staged. ground (arith, s.current j base staged);
  }

  wake-IsSound : g.phase i ≡ waiting → IsSound (moved g i woken)
  wake-IsSound e = record {
    counted = λ j. ground (arith, s.counted j);
    unique = λ j k. ground (arith, s.unique j k);
    owned = λ h. ((s.owned h).0, ground (arith, (s.owned h).1));
    wakes = λ h j w. (i, ground arith);
    current = λ j base staged. ground (arith, s.current j base staged);
  }

  snapshot-IsSound : g.phase i ≡ entered → IsSound (snapshot g i)
  unfolding snapshot
  snapshot-IsSound e = record {
    counted = λ j. ground (arith, s.counted j, s.counted i);
    unique = λ j k. ground (arith, s.unique j k);
    owned = λ h. (i, ground arith);
    wakes = λ h j w. ground (arith, s.counted i);
    current = λ j base staged. ground (arith, s.current j base staged);
  }

  module _ (base staged : NamespacedStores) (e : g.phase i ≡ working base staged) where
    stage-IsSound : (staged' : NamespacedStores) → IsSound (moved g i (working base staged'))
    stage-IsSound staged' = record {
      counted = λ j. ground (arith, s.counted j, s.counted i);
      unique = λ j k. ground (arith, s.unique j k);
      owned = λ h. (i, ground arith);
      wakes = λ h j w. ground (arith, s.counted i);
      current = λ j b t. ground (arith, s.current j b t, s.current i base staged);
    }

    publish-IsSound : IsSound (publish g i staged)
    unfolding publish
    publish-IsSound = record {
      counted = λ j. ground (arith, s.counted j, s.counted i);
      unique = λ j k. ground (arith, s.unique j k);
      owned = λ h. (i, ground arith);
      wakes = λ h j w. ground (arith, s.counted i);
      current = λ j b t. ground (arith, s.unique i j);
    }

  module _ (c : can_drop (g.phase i) ≡ true) where
    permit : has_permit (g.phase i) ≡ true
    permit = permit_of_drop (g.phase i) c

    release-IsSound : ((j : ℕ) → g.phase j ≢ waiting) → IsSound (release g i)
    unfolding release
    release-IsSound none_waits = record {
      counted = λ j. ground (arith, s.unique i j, permit);
      unique = λ j k. ground (arith, s.unique j k);
      owned = λ h. absurd (cc);
      wakes = λ h j w. ground (arith, none_waits j);
      current = λ j b t. ground (arith, s.unique i j, permit);
    }

    release_waking-IsSound : (j : ℕ) → g.phase j ≡ waiting → IsSound (moved (release g i) j woken)
    unfolding release
    release_waking-IsSound j e = record {
      counted = λ k. ground (arith, s.unique i k, permit);
      unique = λ k l. ground (arith, s.unique k l);
      owned = λ h. absurd (cc);
      wakes = λ h k w. (j, ground arith);
      current = λ k b t. ground (arith, s.unique i k, permit);
    }

pub Step-IsSound : (g g' : Shared) → Step g g' → IsSound g → IsSound g'
Step-IsSound g g' (arrive _ _ i e q) s = subst IsSound (sym q) (acquire-IsSound g s i (rw e refl))
Step-IsSound g g' (retry _ _ i e q) s = subst IsSound (sym q) (acquire-IsSound g s i (rw e refl))
Step-IsSound g g' (wake _ _ i e q) s = subst IsSound (sym q) (wake-IsSound g s i e)
Step-IsSound g g' (take_snapshot _ _ i e q) s = subst IsSound (sym q) (snapshot-IsSound g s i e)
Step-IsSound g g' (stage _ _ i base staged staged' e q) s =
    subst IsSound (sym q) (stage-IsSound g s i base staged e staged')
Step-IsSound g g' (commit _ _ i base staged e q) s =
    subst IsSound (sym q) (publish-IsSound g s i base staged e)
Step-IsSound g g' (drop_alone _ _ i c n q) s = subst IsSound (sym q) (release-IsSound g s i c n)
Step-IsSound g g' (drop_notify _ _ i j c e q) s =
    subst IsSound (sym q) (release_waking-IsSound g s i c j e)

pub Run-IsSound : (g g' : Shared) → Run g g' → IsSound g → IsSound g'
Run-IsSound g g' (here _) s = s
Run-IsSound g g' (next _ h _ st r) s = Run-IsSound h g' r (Step-IsSound g h st s)

module _ (stores : NamespacedStores) (g : Shared) (r : Run (start stores) g) where
  pub reached-IsSound : IsSound g
  reached-IsSound = Run-IsSound (start stores) g r (start-IsSound stores)

  -- From the start of a namespace, whatever steps the threads take, no two threads hold a permit
  -- of the writer gate.
  pub permit_unique :
      (i j : ℕ) → has_permit (g.phase i) ≡ true → has_permit (g.phase j) ≡ true → i ≡ j
  permit_unique = reached-IsSound.unique

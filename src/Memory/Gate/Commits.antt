-- ===== src/Memory/Gate/Commits.antt =====
-- backend/memory.rs: the commits of the threads at the writer gate, one after the other.
use collette.Prelude.{ℕ, ◌≡◌, refl, sym, ap, arith, ◌∙◌, List, [], ◌∷◌, ◌++◌}
use mathlib.Core.Path.{subst}
use collette.Memory.{NamespacedStores}
use collette.Memory.Gate.{
  Shared, working, start, publish, Step, arrive, retry, wake, take_snapshot, stage, commit,
  drop_alone, drop_notify, acquire, snapshot, release,
}
use collette.Memory.Gate.Sound.{IsSound, Step-IsSound, start-IsSound}

-- The snapshot of a handle, and the stores that it has committed.
abbrev pub Change : Type 0
Change = NamespacedStores × NamespacedStores

-- What a step commits.
abbrev pub changes : {g g' : Shared} → Step g g' → List Change
changes (arrive _ _ _ _ _) = []
changes (retry _ _ _ _ _) = []
changes (wake _ _ _ _ _) = []
changes (take_snapshot _ _ _ _ _) = []
changes (stage _ _ _ _ _ _ _ _) = []
changes (commit _ _ _ base staged _ _) = (base, staged) ∷ []
changes (drop_alone _ _ _ _ _ _) = []
changes (drop_notify _ _ _ _ _ _ _) = []

-- The steps of the threads from the stores `initial` on, with what they have committed.
pub data Logged (initial : NamespacedStores) : Shared → List Change → Type 0 where
  begun : Logged initial (start initial) []
  later :
      (g g' : Shared) (log : List Change) (st : Step g g')
      → Logged initial g log
      → Logged initial g' (log ++ changes st)

-- Each change starts from what the one before has left, the first one from `s`, and `t` is left.
abbrev pub IsChain : NamespacedStores → List Change → NamespacedStores → Type 0
IsChain s [] t = s ≡ t
IsChain s ((base, staged) ∷ log) t = (base ≡ s) × IsChain staged log t

append-IsChain :
    (s t u : NamespacedStores) (log more : List Change)
    → IsChain s log t
    → IsChain t more u
    → IsChain s (log ++ more) u
append-IsChain s t u [] more h k = subst (λ x. IsChain x more u) (sym h) k
append-IsChain s t u ((base, staged) ∷ log) more h k =
    (h.0, append-IsChain staged t u log more h.1 k)

kept : {s : NamespacedStores} {g' h : Shared} → g' ≡ h → s ≡ h.stores → s ≡ g'.stores
kept q e = e ∙ ap (λ (x : Shared). x.stores) (sym q)

acquire-stores : (g : Shared) (i : ℕ) → g.stores ≡ (acquire g i).stores
unfolding acquire
acquire-stores g i = ground arith

changes-IsChain :
    (g g' : Shared) (st : Step g g') → IsSound g → IsChain g.stores (changes st) g'.stores
unfolding snapshot release publish
changes-IsChain _ _ (arrive g _ i e q) s = kept q (acquire-stores g i)
changes-IsChain _ _ (retry g _ i e q) s = kept q (acquire-stores g i)
changes-IsChain _ _ (wake _ _ i e q) s = kept q refl
changes-IsChain _ _ (take_snapshot _ _ i e q) s = kept q refl
changes-IsChain _ _ (stage _ _ i base staged staged' e q) s = kept q refl
changes-IsChain _ _ (commit g g' i base staged e q) s =
    (sym (s.current i base staged e), ap (λ (x : Shared). x.stores) (sym q))
changes-IsChain _ _ (drop_alone _ _ i c n q) s = kept q refl
changes-IsChain _ _ (drop_notify _ _ i j c e q) s = kept q refl

module _ (initial : NamespacedStores) where
  Logged-IsSound : (g : Shared) (log : List Change) → Logged initial g log → IsSound g
  Logged-IsSound _ _ begun = start-IsSound initial
  Logged-IsSound _ _ (later g g' log st l) = Step-IsSound g g' st (Logged-IsSound g log l)

  Logged-IsChain :
      (g : Shared) (log : List Change) → Logged initial g log → IsChain initial log g.stores
  unfolding start
  Logged-IsChain _ _ begun = refl
  Logged-IsChain _ _ (later g g' log st l) =
      append-IsChain initial g.stores g'.stores log (changes st) (Logged-IsChain g log l)
        (changes-IsChain g g' st (Logged-IsSound g log l))

  -- From the start of a namespace, whatever steps the threads take at the writer gate, as long as
  -- the namespace is not prepared again: the stores are what the commits have left one after the
  -- other, where every commit began from a snapshot of what the one before had left, so none is
  -- lost, and the snapshot of a thread that has a write handle is what is published.
  pub commits-IsChain :
      (g : Shared) (log : List Change)
      → Logged initial g log
      → IsChain initial log g.stores
        × ((i : ℕ) (base staged : NamespacedStores)
            → g.phase i ≡ working base staged
            → g.stores ≡ base)
  commits-IsChain g log l = (Logged-IsChain g log l, (Logged-IsSound g log l).current)

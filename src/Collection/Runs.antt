-- ===== src/Collection/Runs.antt =====
-- Computations that neither fail in the backend nor panic.
use collette.Prelude.{◌≡◌, ◌≢◌, refl, sym, Bool, true, false, String, if◌then◌else◌}
use collette.Outcome.{
  Outcome, Error, ok, err, panic, already_exists, not_found, cursor_out_of_bounds, backend, codec,
  unexpected, map_err, ◌>>=◌,
}
use collette.Collection.Refines.{Refines, done, failed, backend_failed}

abbrev pub is_backend : Error → Bool
is_backend (backend t) = true
is_backend (already_exists t) = false
is_backend (not_found t) = false
is_backend cursor_out_of_bounds = false
is_backend (codec t) = false
is_backend (unexpected t) = false

-- A value that the computation returns satisfies `P`, and an error is not the backend's.
pub data Runs {A : Type 0} (P : A → Type 0) : Outcome Error A → Type 0 where
  returns : (a : A) → P a → Runs P (ok a)
  fails : (e : Error) → is_backend e ≡ false → Runs P (err e)

module _ {A B : Type 0} {P : A → Type 0} {Q : B → Type 0} where
  pub Runs-bind :
      {m : Outcome Error A} (f : A → Outcome Error B)
      → Runs P m
      → ((a : A) → P a → Runs Q (f a))
      → Runs Q (m >>= f)
  Runs-bind f (returns a p) k = k a p
  Runs-bind f (fails e q) k = fails e q

module _ {A : Type 0} {P Q : A → Type 0} where
  pub Runs-weaken : {m : Outcome Error A} → Runs P m → ((a : A) → P a → Q a) → Runs Q m
  Runs-weaken (returns a p) k = returns a (k a p)
  Runs-weaken (fails e q) k = fails e q

pub if-Runs :
    {A : Type 0} {P : A → Type 0} (b : Bool) {m n : Outcome Error A}
    → Runs P m
    → Runs P n
    → Runs P (if b then m else n)
if-Runs true h k = h
if-Runs false h k = k

module _ {A B : Type 0} {Q : B → Type 0} where
  pub Runs-codec :
      (m : Outcome String A) (f : A → Outcome Error B)
      → m ≢ panic
      → ((a : A) → Runs Q (f a))
      → Runs Q (map_err Error.codec m >>= f)
  Runs-codec (ok a) f h k = k a
  Runs-codec (err t) f h k = fails (codec t) refl
  Runs-codec panic f h k = absurd (h refl)

-- What the computation returns, shown.
abbrev pub shown_as : {A B : Type 0} → (A → B) → Outcome Error A → Outcome Error B
shown_as f (ok a) = ok (f a)
shown_as f (err e) = err e
shown_as f panic = panic

-- Such a computation that refines a specification returns what the specification says.
pub shown_as_specified :
    {A B : Type 0} {P Q : A → Type 0} {show : A → B} {s : Outcome Error B} {m : Outcome Error A}
    → Runs Q m
    → Refines P show s m
    → shown_as show m ≡ s
shown_as_specified (returns a q) (done a' e p) = sym e
shown_as_specified (fails e q) (failed e' h) = sym h
shown_as_specified (fails e q) (backend_failed t) = cc

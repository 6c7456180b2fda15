-- ===== src/Collection/Refines.antt =====
-- The relation between a computation over a backend and its specification.
use collette.Prelude.{◌≡◌, refl, String}
use collette.Outcome.{Outcome, Error, ok, err, panic, map_err, ◌>>=◌}

-- Unless the backend fails or there is a panic, the computation returns what the specification
-- says: a value that shows as the specified one and satisfies `P`, or the same error.
pub data Refines {A B : Type 0} (P : A → Type 0) (show : A → B) (s : Outcome Error B)
    : Outcome Error A → Type 0 where
  done : (a : A) → s ≡ ok (show a) → P a → Refines P show s (ok a)
  failed : (e : Error) → s ≡ err e → Refines P show s (err e)
  backend_failed : (t : String) → Refines P show s (err (Error.backend t))
  panicked : Refines P show s panic

module _ {A B C D : Type 0} {P : A → Type 0} {show : A → B} {Q : C → Type 0} {show' : C → D} where
  pub Refines-bind :
      {s : Outcome Error B} {m : Outcome Error A} (f : A → Outcome Error C)
      (g : B → Outcome Error D)
      → Refines P show s m
      → ((a : A) → P a → Refines Q show' (g (show a)) (f a))
      → Refines Q show' (s >>= g) (m >>= f)
  Refines-bind f g (done a e p) k = rw e (k a p)
  Refines-bind f g (failed err' e) k = failed err' (rw e)
  Refines-bind f g (backend_failed t) k = backend_failed t
  Refines-bind f g panicked k = panicked

module _ {A C D : Type 0} {Q : C → Type 0} {show : C → D} {s : Outcome Error D} where
  -- A call of the backend.
  pub Refines-backend :
      (m : Outcome String A) (f : A → Outcome Error C)
      → ((a : A) → m ≡ ok a → Refines Q show s (f a))
      → Refines Q show s (map_err Error.backend m >>= f)
  Refines-backend (ok a) f k = k a refl
  Refines-backend (err t) f k = backend_failed t
  Refines-backend panic f k = panicked

module _ {C D : Type 0} {Q : C → Type 0} {show : C → D} {s : Outcome Error D} where
  pub Refines-last :
      (m : Outcome String C)
      → ((a : C) → m ≡ ok a → Refines Q show s (ok a))
      → Refines Q show s (map_err Error.backend m)
  Refines-last (ok a) k = k a refl
  Refines-last (err t) k = backend_failed t
  Refines-last panic k = panicked

module _ {A C D : Type 0} {Q : C → Type 0} {show : C → D} where
  -- A call of the codec, which both sides make.
  pub Refines-codec :
      (m : Outcome String A) (f : A → Outcome Error C) (g : A → Outcome Error D)
      → ((a : A) → m ≡ ok a → Refines Q show (g a) (f a))
      → Refines Q show (map_err Error.codec m >>= g) (map_err Error.codec m >>= f)
  Refines-codec (ok a) f g k = k a refl
  Refines-codec (err t) f g k = failed (Error.codec t) refl
  Refines-codec panic f g k = panicked

module _ {A B C : Type 0} {P : A → Type 0} {show : A → B} {Q : C → Type 0} {show' : C → B} where
  -- A step that the specification does not name.
  pub Refines-then :
      {s : Outcome Error B} {m : Outcome Error A} (f : A → Outcome Error C)
      → Refines P show s m
      → ((a : A) → P a → Refines Q show' (ok (show a)) (f a))
      → Refines Q show' s (m >>= f)
  Refines-then f (done a e p) k = rw e (k a p)
  Refines-then f (failed err' e) k = failed err' e
  Refines-then f (backend_failed t) k = backend_failed t
  Refines-then f panicked k = panicked

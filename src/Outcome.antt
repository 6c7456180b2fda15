-- ===== src/Outcome.antt =====
-- error.rs: the error type of the crate, and what a call of fallible code comes to: a value, an
-- error, or a panic. Boxed errors are kept as their text.
use collette.Prelude.{String, Option, none, some, ◌≡◌, refl, List, [], ◌∷◌, map}

pub data Error : Type 0 where
  already_exists : String → Error
  not_found : String → Error
  cursor_out_of_bounds : Error
  backend : String → Error
  codec : String → Error
  unexpected : String → Error

pub data Outcome {ℓ} (E : Type 0) (A : Type ℓ) : Type ℓ where
  ok : A → Outcome E A
  err : E → Outcome E A
  panic : Outcome E A

infixl 5 ◌>>=◌
abbrev pub ◌>>=◌ {ℓ κ} :
    {E : Type 0} {A : Type ℓ} {B : Type κ} → Outcome E A → (A → Outcome E B) → Outcome E B
ok a >>= f = f a
err e >>= f = err e
panic >>= f = panic

abbrev pub map_err {ℓ} : {E F : Type 0} {A : Type ℓ} → (E → F) → Outcome E A → Outcome F A
map_err f (ok a) = ok a
map_err f (err e) = err (f e)
map_err f panic = panic

-- `Option::unwrap`
abbrev pub unwrap {ℓ} : {E : Type 0} {A : Type ℓ} → Option A → Outcome E A
unwrap none = panic
unwrap (some a) = ok a

pub ok_injective {ℓ} :
    {E : Type 0} {A : Type ℓ} {a b : A} → ◌≡◌ {A = Outcome E A} (ok a) (ok b) → a ≡ b
ok_injective e = cc

-- Inversion of a successful chain.
pub map_err-eq_ok {ℓ} :
    {E F : Type 0} {A : Type ℓ} (f : E → F) (m : Outcome E A) {a : A}
    → map_err f m ≡ ok a
    → m ≡ ok a
map_err-eq_ok f (ok b) e = cc
map_err-eq_ok f (err t) e = absurd (cc)
map_err-eq_ok f panic e = absurd (cc)

pub >>=-eq_ok {ℓ κ} :
    {E : Type 0} {A : Type ℓ} {B : Type κ} (m : Outcome E A) (f : A → Outcome E B) {b : B}
    → (m >>= f) ≡ ok b
    → (a : A) × (m ≡ ok a) × (f a ≡ ok b)
>>=-eq_ok (ok a) f e = (a, refl, e)
>>=-eq_ok (err t) f e = absurd (cc)
>>=-eq_ok panic f e = absurd (cc)

-- The same where the first step is a call of a backend or a codec.
pub call-eq_ok {ℓ κ} :
    {E F : Type 0} {A : Type ℓ} {B : Type κ} (g : E → F) (m : Outcome E A) (f : A → Outcome F B)
    {b : B}
    → (map_err g m >>= f) ≡ ok b
    → (a : A) × (m ≡ ok a) × (f a ≡ ok b)
call-eq_ok g m f e = let (a, q, r) = >>=-eq_ok (map_err g m) f e in (a, map_err-eq_ok g m q, r)

pub map_ok_injective :
    {E A : Type 0} (xs ys : List A) → ◌≡◌ {A = List (Outcome E A)} (map ok xs) (map ok ys) → xs ≡ ys
map_ok_injective [] [] h = refl
map_ok_injective [] (y ∷ ys) h = cc
map_ok_injective (x ∷ xs) [] h = cc
map_ok_injective {E} (x ∷ xs) (y ∷ ys) h =
    let t : ◌≡◌ {A = List (Outcome E _)} (map ok xs) (map ok ys) = cc in
    let e : x ≡ y = cc in let r = map_ok_injective xs ys t in cc

-- ===== src/Prelude/Pairwise.antt =====
-- Lists whose items are related one by one.
use collette.Prelude.{List, [], ◌∷◌, All, refl, sym}
use collette.Prelude.Listings.{IsOrdered}
use mathlib.Core.List.{Memᴰ}
use mathlib.Core.Path.{subst}

-- The items of two lists are related one by one.
abbrev pub Pairwise : {A B : Type 0} → (A → B → Type 0) → List A → List B → Type 0
Pairwise rel [] [] = Unit
Pairwise rel [] (y ∷ ys) = ⊥
Pairwise rel (x ∷ xs) [] = ⊥
Pairwise rel (x ∷ xs) (y ∷ ys) = rel x y × Pairwise rel xs ys

module _ {A B : Type 0} (rel : A → B → Type 0) where
  pub left_of :
      (xs : List A) (ys : List B)
      → Pairwise rel xs ys
      → (y : B) → Memᴰ y ys
      → (x : A) × Memᴰ x xs × rel x y
  left_of [] [] h y i = elim i [ ]
  left_of [] (z ∷ ys) h y i = absurd h
  left_of (x ∷ xs) [] h y i = absurd h
  left_of (x ∷ xs) (z ∷ ys) h y (Memᴰ.head e) = (x, Memᴰ.head refl, subst (rel x) (sym e) h.0)
  left_of (x ∷ xs) (z ∷ ys) h y (Memᴰ.tail i) =
      let (x', j, r) = left_of xs ys h.1 y i in (x', Memᴰ.tail j, r)

  pub right_of :
      (xs : List A) (ys : List B)
      → Pairwise rel xs ys
      → (x : A) → Memᴰ x xs
      → (y : B) × Memᴰ y ys × rel x y
  right_of [] ys h x i = elim i [ ]
  right_of (z ∷ xs) [] h x i = absurd h
  right_of (z ∷ xs) (y ∷ ys) h x (Memᴰ.head e) =
      (y, Memᴰ.head refl, subst (λ a. rel a y) (sym e) h.0)
  right_of (z ∷ xs) (y ∷ ys) h x (Memᴰ.tail i) =
      let (y', j, r) = right_of xs ys h.1 x i in (y', Memᴰ.tail j, r)

  module _ (r : A → A → Type 0) (s : B → B → Type 0)
      (keeps : (a a' : A) (b b' : B) → rel a b → rel a' b' → r a a' → s b b') where
    All-Pairwise :
        (x : A) (y : B) (xs : List A) (ys : List B)
        → rel x y
        → Pairwise rel xs ys
        → All (r x) xs
        → All (s y) ys
    All-Pairwise x y [] [] p h a = tt
    All-Pairwise x y [] (y' ∷ ys) p h a = absurd h
    All-Pairwise x y (x' ∷ xs) [] p h a = absurd h
    All-Pairwise x y (x' ∷ xs) (y' ∷ ys) p h a =
        (keeps x x' y y' p h.0 a.0, All-Pairwise x y xs ys p h.1 a.1)

    pub IsOrdered-Pairwise :
        (xs : List A) (ys : List B) → Pairwise rel xs ys → IsOrdered r xs → IsOrdered s ys
    IsOrdered-Pairwise [] [] h o = tt
    IsOrdered-Pairwise [] (y ∷ ys) h o = absurd h
    IsOrdered-Pairwise (x ∷ xs) [] h o = absurd h
    IsOrdered-Pairwise (x ∷ xs) (y ∷ ys) h o =
        (All-Pairwise x y xs ys h.0 h.1 o.0, IsOrdered-Pairwise xs ys h.1 o.1)

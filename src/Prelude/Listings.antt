-- ===== src/Prelude/Listings.antt =====
-- Membership in a list, and lists that a relation orders.
use collette.Prelude.{◌≡◌, List, [], ◌∷◌, ◌++◌, All, All-append, refl, sym, ◌∙◌, ap}
use mathlib.Core.List.Memᴰ
use mathlib.Core.List.{Memᴰ, reverse, reverse-cons, reverse-reverse}
use mathlib.Core.Path.{subst}

module _ {ℓ} {A : Type ℓ} where
  pub All-Mem : (P : A → Type 0) {a : A} {xs : List A} → All P xs → Memᴰ a xs → P a
  All-Mem P h (Memᴰ.head e) = subst P (sym e) h.0
  All-Mem P h (Memᴰ.tail i) = All-Mem P h.1 i

  pub Mem-reverse : (xs : List A) {a : A} → Memᴰ a xs → Memᴰ a (reverse xs)
  Mem-reverse [] i = elim i [ ]
  Mem-reverse (x ∷ xs) (Memᴰ.head e) =
      rw (reverse-cons x xs) (Memᴰ.append_right (reverse xs) (Memᴰ.head e))
  Mem-reverse (x ∷ xs) (Memᴰ.tail i) =
      rw (reverse-cons x xs) (Memᴰ.append_left (x ∷ []) (Mem-reverse xs i))

  pub reverse-Mem : (xs : List A) {a : A} → Memᴰ a (reverse xs) → Memᴰ a xs
  reverse-Mem xs {a} i = subst (Memᴰ a) (reverse-reverse xs) (Mem-reverse (reverse xs) i)

  All-reverse : (P : A → Type 0) (xs : List A) → All P xs → All P (reverse xs)
  All-reverse P [] h = tt
  All-reverse P (x ∷ xs) h =
      rw (reverse-cons x xs) (All-append P (reverse xs) (x ∷ []) (All-reverse P xs h.1) (h.0, tt))

  pub All-weaken : {P Q : A → Type 0} (xs : List A) → ((x : A) → P x → Q x) → All P xs → All Q xs
  All-weaken [] f h = tt
  All-weaken (x ∷ xs) f h = (f x h.0, All-weaken xs f h.1)

  -- Every item is related to all behind it.
  abbrev pub IsOrdered : (A → A → Type 0) → List A → Type 0
  IsOrdered rel [] = Unit
  IsOrdered rel (x ∷ xs) = All (rel x) xs × IsOrdered rel xs

  IsOrdered-snoc :
      (rel : A → A → Type 0) (xs : List A) (y : A)
      → IsOrdered rel xs
      → All (λ x. rel x y) xs
      → IsOrdered rel (xs ++ y ∷ [])
  IsOrdered-snoc rel [] y o h = (tt, tt)
  IsOrdered-snoc rel (x ∷ xs) y o h =
      (All-append (rel x) xs (y ∷ []) o.0 (h.0, tt), IsOrdered-snoc rel xs y o.1 h.1)

  pub IsOrdered-reverse :
      (rel : A → A → Type 0) (xs : List A)
      → IsOrdered rel xs
      → IsOrdered (λ x y. rel y x) (reverse xs)
  IsOrdered-reverse rel [] o = tt
  IsOrdered-reverse rel (x ∷ xs) o = rw (reverse-cons x xs) (
      IsOrdered-snoc (λ x y. rel y x) (reverse xs) x (IsOrdered-reverse rel xs o.1)
        (All-reverse (rel x) xs o.0))

  pub IsOrdered-weaken :
      {r s : A → A → Type 0} (xs : List A)
      → ((x y : A) → r x y → s x y)
      → IsOrdered r xs
      → IsOrdered s xs
  IsOrdered-weaken [] f o = tt
  IsOrdered-weaken (x ∷ xs) f o = (All-weaken xs (f x) o.0, IsOrdered-weaken xs f o.1)

  pub IsOrdered-right :
      (rel : A → A → Type 0) (xs ys : List A) → IsOrdered rel (xs ++ ys) → IsOrdered rel ys
  IsOrdered-right rel [] ys o = o
  IsOrdered-right rel (x ∷ xs) ys o = IsOrdered-right rel xs ys o.1

  -- What stands further left is related to what stands further right.
  pub ordered_across :
      (rel : A → A → Type 0) (xs : List A) {ys : List A} {a b : A}
      → IsOrdered rel (xs ++ ys)
      → Memᴰ a xs
      → Memᴰ b ys
      → rel a b
  ordered_across rel [] o i j = elim i [ ]
  ordered_across rel (x ∷ xs) {b = b} o (Memᴰ.head e) j =
      subst (λ a. rel a b) (sym e) (All-Mem (rel x) o.0 (Memᴰ.append_right xs j))
  ordered_across rel (x ∷ xs) o (Memᴰ.tail i) j = ordered_across rel xs o.1 i j

  module _ (rel : A → A → Type 0) (asym : (a b : A) → rel a b → rel b a → ⊥) where
    heads_agree :
        (x y : A) (xs ys : List A)
        → All (rel x) xs
        → All (rel y) ys
        → Memᴰ x (y ∷ ys)
        → Memᴰ y (x ∷ xs)
        → x ≡ y
    heads_agree x y xs ys h k (Memᴰ.head e) j = e
    heads_agree x y xs ys h k (Memᴰ.tail i) (Memᴰ.head e) = sym e
    heads_agree x y xs ys h k (Memᴰ.tail i) (Memᴰ.tail j) =
        absurd (asym x y (All-Mem (rel x) h j) (All-Mem (rel y) k i))

    behind_head :
        (x y : A) (xs ys : List A) {a : A}
        → x ≡ y
        → All (rel x) xs
        → Memᴰ a xs
        → Memᴰ a (y ∷ ys)
        → Memᴰ a ys
    behind_head x y xs ys e h i (Memᴰ.tail j) = j
    behind_head x y xs ys {a} e h i (Memᴰ.head q) =
        let p = All-Mem (rel x) h i in
        let x_x = subst (rel x) (q ∙ sym e) p in absurd (asym x x x_x x_x)

    -- Two ordered lists with the same items are the same.
    pub ordered_unique :
        (xs ys : List A)
        → IsOrdered rel xs
        → IsOrdered rel ys
        → ((a : A) → Memᴰ a xs → Memᴰ a ys)
        → ((a : A) → Memᴰ a ys → Memᴰ a xs)
        → xs ≡ ys
    ordered_unique [] [] o o' f g = refl
    ordered_unique [] (y ∷ ys) o o' f g = elim (g y (Memᴰ.head refl)) [ ]
    ordered_unique (x ∷ xs) [] o o' f g = elim (f x (Memᴰ.head refl)) [ ]
    ordered_unique (x ∷ xs) (y ∷ ys) o o' f g =
        let e = heads_agree x y xs ys o.0 o'.0 (f x (Memᴰ.head refl)) (g y (Memᴰ.head refl)) in
        let rest =
          ordered_unique xs ys o.1 o'.1 (λ a i. behind_head x y xs ys e o.0 i (f a (Memᴰ.tail i)))
            (λ a i. behind_head y x ys xs (sym e) o'.0 i (g a (Memᴰ.tail i))) in
        ap (λ z. z ∷ xs) e ∙ ap (λ l. y ∷ l) rest

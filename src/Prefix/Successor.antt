-- ===== src/Prefix/Successor.antt =====
-- `prefix_end` bounds exactly the byte strings with the prefix.
use collette.Prelude.{
  ℕ, zero, suc, ◌+◌, ◌<◌, ◌≡◌, ◌≢◌, refl, ◌↔◌, inl, inr, lt, Bool, true, false, ◌&&◌, [], ◌∷◌, ◌==◌,
  if◌then◌else◌, length, arith, Bool-cases, All,
}
use collette.Bytes.{Bytes, AreBytes, compare_bytes}
use collette.Range.{Bound, included, excluded, unbounded, contains}
use collette.Prefix.{prefix_end, prefix_end_loop}

abbrev pub starts_with : Bytes → Bytes → Bool
starts_with [] k = true
starts_with (x ∷ p) [] = false
starts_with (x ∷ p) (y ∷ k) = x == y && starts_with p k

-- The end of a longer prefix from that of its tail.
abbrev pub cons_end : ℕ → Bound Bytes → Bound Bytes
cons_end x (included s) = included s
cons_end x (excluded s) = excluded (x ∷ s)
cons_end x unbounded = if x == 0xff then unbounded else excluded ((x + 1) ∷ [])

prefix_end_loop-cons :
    (n x : ℕ) (bs : Bytes) → prefix_end_loop (suc n) (x ∷ bs) ≡ cons_end x (prefix_end_loop n bs)
unfolding prefix_end_loop
prefix_end_loop-cons zero x bs = ground arith
prefix_end_loop-cons (suc n) x bs = ground (arith, prefix_end_loop-cons n x bs)

pub prefix_end-cons : (x : ℕ) (bs : Bytes) → prefix_end (x ∷ bs) ≡ cons_end x (prefix_end bs)
unfolding prefix_end
prefix_end-cons x bs = prefix_end_loop-cons (length bs) x bs

-- An end that excludes its bytes, or none.
abbrev pub IsOpen : Bound Bytes → Type 0
IsOpen (included s) = ⊥
IsOpen (excluded s) = Unit
IsOpen unbounded = Unit

cons_end-unbounded :
    (x : ℕ) (e : Bound Bytes) {P : Type 0}
    → IsOpen e
    → (e ≡ unbounded) ↔ P
    → (cons_end x e ≡ unbounded) ↔ ((x ≡ 0xff) × P)
cons_end-unbounded x (included s) h f = absurd h
cons_end-unbounded x (excluded s) h f = (λ q. cc, λ q. cc (f.1 q.1))
cons_end-unbounded x unbounded h f = (λ q. (ground arith, f.0 refl), λ q. ground arith)

pub prefix_end-nil : prefix_end [] ≡ unbounded
unfolding prefix_end
prefix_end-nil = refl

cons_end-IsOpen : (x : ℕ) (e : Bound Bytes) → IsOpen e → IsOpen (cons_end x e)
cons_end-IsOpen x (included s) h = h
cons_end-IsOpen x (excluded s) h = tt
cons_end-IsOpen x unbounded h = elim (Bool-cases (x == 0xff)) [ inl e ↦ rw e tt | inr e ↦ rw e tt ]

pub prefix_end-IsOpen : (p : Bytes) → IsOpen (prefix_end p)
prefix_end-IsOpen [] = rw prefix_end-nil tt
prefix_end-IsOpen (x ∷ p) =
    rw (prefix_end-cons x p) (cons_end-IsOpen x (prefix_end p) (prefix_end-IsOpen p))

not_lt_nil : (k : Bytes) → compare_bytes k [] ≢ lt
unfolding compare_bytes
not_lt_nil [] e = cc
not_lt_nil (y ∷ k) e = cc

contains_step :
    (x y : ℕ) (p k : Bytes) (e : Bound Bytes) (b : Bool)
    → x < 256
    → y < 256
    → IsOpen e
    → contains compare_bytes (included p, e) k ≡ b
    → contains compare_bytes (included (x ∷ p), cons_end x e) (y ∷ k) ≡ (x == y && b)
unfolding compare_bytes
contains_step x y p k (included s) b hx hy h c = absurd h
contains_step x y p k (excluded s) b hx hy h c = ground arith
contains_step x y p k unbounded b hx hy h c = ground (arith, not_lt_nil k)

-- A byte string lies in the scan range of a prefix exactly if it begins with the prefix.
pub contains-prefix_end :
    (p k : Bytes)
    → AreBytes p
    → AreBytes k
    → contains compare_bytes (included p, prefix_end p) k ≡ starts_with p k
unfolding compare_bytes
contains-prefix_end [] [] h g = rw prefix_end-nil
contains-prefix_end [] (y ∷ k) h g = rw prefix_end-nil
contains-prefix_end (x ∷ p) [] h g = refl
contains-prefix_end (x ∷ p) (y ∷ k) h g = rw (prefix_end-cons x p) (
    contains_step x y p k (prefix_end p) (starts_with p k) h.0 g.0 (prefix_end-IsOpen p)
      (contains-prefix_end p k h.1 g.1))

-- The range of a prefix has no end exactly if every byte of the prefix is 0xff.
pub prefix_end-unbounded : (p : Bytes) → (prefix_end p ≡ unbounded) ↔ All (λ b. b ≡ 0xff) p
prefix_end-unbounded [] = rw prefix_end-nil (λ _. tt, λ _. refl)
prefix_end-unbounded (x ∷ p) =
    rw (prefix_end-cons x p)
      (cons_end-unbounded x (prefix_end p) (prefix_end-IsOpen p) (prefix_end-unbounded p))

-- ===== src/Bounds/Keys.antt =====
-- How the encodings of lawful keys, with bytes behind them, lie to one another and to the ends of
-- prefix ranges.
use mathlib.Core.Path.{subst}
use collette.Prelude.{
  ℕ, ◌≡◌, ◌≢◌, refl, sym, ap, ◌∙◌, ◌⊎◌, inl, inr, Ordering, lt, eq, gt, then_order, Bool, true,
  false, not, ◌&&◌, ◌||◌, [], ◌∷◌, ◌++◌, append-nil, arith, Bool-cases, All-append,
}
use collette.Bytes.{Bytes, AreBytes, IsByte, compare_bytes}
use collette.Bytes.Order.{
  flip, compare_bytes_refl, compare_bytes-flip, lt_bytes_trans, eq_of_compare_bytes,
}
use collette.Key.{Key, IsLawful}
use collette.Range.{
  Bound, included, excluded, unbounded, is_lt, is_le, is_eq, before_end, after_start,
}
use collette.Prefix.{prefix_end}
use collette.Prefix.Successor.{
  starts_with, contains-prefix_end, prefix_end-cons, prefix_end-nil, prefix_end-IsOpen, IsOpen,
  cons_end,
}

starts_with-append : (p r : Bytes) → starts_with p (p ++ r) ≡ true
starts_with-append [] r = refl
starts_with-append (x ∷ p) r = ground (arith, starts_with-append p r)

starts_with_self : (p : Bytes) → starts_with p p ≡ true
starts_with_self [] = refl
starts_with_self (x ∷ p) = ground (arith, starts_with_self p)

rest_of_starts_with : (p k : Bytes) → starts_with p k ≡ true → (t : Bytes) × (k ≡ p ++ t)
rest_of_starts_with [] k h = (k, refl)
rest_of_starts_with (x ∷ p) [] h = cc
rest_of_starts_with (x ∷ p) (y ∷ k) h =
    let (t, e) = rest_of_starts_with p k (ground arith) in (t, ground arith)

then_eq : (o : Ordering) → then_order o eq ≡ o
then_eq lt = refl
then_eq eq = refl
then_eq gt = refl

end_cases :
    (p x : Bytes) (e : Bound Bytes) (b : Bool)
    → IsOpen e
    → (is_le (compare_bytes p x) && before_end compare_bytes e x) ≡ b
    → before_end compare_bytes e p ≡ true
    → before_end compare_bytes e x ≡ (is_lt (compare_bytes x p) || b)
end_cases p x (included s) b o c d = absurd o
end_cases p x (excluded s) b o c d = ground (arith, compare_bytes-flip p x, lt_bytes_trans x p s)
end_cases p x unbounded b o c d = ground (arith, compare_bytes-flip p x)

-- What lies below the end of a prefix range is less than the prefix or begins with it.
pub before_end-prefix_end :
    (p x : Bytes)
    → AreBytes p
    → AreBytes x
    → before_end compare_bytes (prefix_end p) x ≡ (is_lt (compare_bytes x p) || starts_with p x)
before_end-prefix_end p x hp hx =
    end_cases p x (prefix_end p) (starts_with p x) (prefix_end-IsOpen p)
      (contains-prefix_end p x hp hx)
      (ground (arith, contains-prefix_end p p hp hp, compare_bytes_refl p, starts_with_self p))

excluded_cons :
    (x c : ℕ) (e : Bound Bytes) (w : Bytes)
    → IsOpen e
    → cons_end x e ≡ excluded (c ∷ w)
    → ((x ≡ c) × (e ≡ excluded w)) ⊎ (w ≡ [])
excluded_cons x c (included s) w o h = absurd o
excluded_cons x c (excluded s) w o h = inl (cc, cc)
excluded_cons x c unbounded w o h = inr (ground arith)

append_ne_nil : (u : Bytes) (c : ℕ) (r : Bytes) → u ++ c ∷ r ≢ []
append_ne_nil [] c r e = cc
append_ne_nil (x ∷ u) c r e = cc

-- What is continued to the end of a prefix range is itself a beginning of the prefix.
starts_with_of_end :
    (p u : Bytes) (c : ℕ) (r : Bytes)
    → prefix_end p ≡ excluded (u ++ c ∷ r)
    → starts_with u p ≡ true
starts_with_of_end p [] c r e = refl
starts_with_of_end [] (x ∷ u) c r e = cc prefix_end-nil
starts_with_of_end (y ∷ p) (x ∷ u) c r e =
    elim (excluded_cons y x (prefix_end p) (u ++ c ∷ r) (prefix_end-IsOpen p)
      (sym (prefix_end-cons y p) ∙ e)) [
        | inl (a, b) ↦ ground (arith, starts_with_of_end p u c r b)
        | inr n ↦ absurd (append_ne_nil u c r n)
      ]

nil_le : (r : Bytes) → is_le (compare_bytes [] r) ≡ true
unfolding compare_bytes
nil_le [] = refl
nil_le (y ∷ r) = refl

not_lt_nil : (r : Bytes) → is_lt (compare_bytes r []) ≡ false
unfolding compare_bytes
not_lt_nil [] = refl
not_lt_nil (y ∷ r) = refl

module _ {K : Type 0} {k : Key K} {cmp : K → K → Ordering} {IsValid : K → Type 0}
    (law : IsLawful k cmp IsValid) where
  pub compare-encode :
      (a b : K) → IsValid a → IsValid b → compare_bytes (k.encode a) (k.encode b) ≡ cmp a b
  compare-encode a b va vb = cc (
    append-nil (k.encode a),
    append-nil (k.encode b),
    law.order a b [] [] va vb,
    compare_bytes_refl [],
    then_eq (cmp a b),
  )

  pub cmp_flip : (a b : K) → IsValid a → IsValid b → cmp b a ≡ flip (cmp a b)
  cmp_flip a b va vb =
      sym (compare-encode b a vb va)
      ∙ compare_bytes-flip (k.encode a) (k.encode b)
      ∙ ap flip (compare-encode a b va vb)

  eq_of_shared :
      (a b : K) (r t : Bytes)
      → IsValid a
      → IsValid b
      → k.encode b ++ r ≡ k.encode a ++ t
      → is_eq (cmp a b) ≡ true
  eq_of_shared a b r t va vb e = ground (
    arith,
    law.order b a r t vb va,
    compare_bytes_refl (k.encode a ++ t),
    law.eq_of_cmp b a,
    law.cmp_refl a,
  )

  -- A stored key begins with an encoded key exactly if its own key is that key.
  pub starts_with-encode :
      (a b : K) (r : Bytes)
      → IsValid a
      → IsValid b
      → starts_with (k.encode a) (k.encode b ++ r) ≡ is_eq (cmp a b)
  starts_with-encode a b r va vb = elim (Bool-cases (starts_with (k.encode a) (k.encode b ++ r))) [
    | inl h ↦
        let (t, e) = rest_of_starts_with (k.encode a) (k.encode b ++ r) h in
        h ∙ sym (eq_of_shared a b r t va vb e)
    | inr h ↦ ground (arith, law.eq_of_cmp a b, starts_with-append (k.encode a) r)
  ]

-- A stored key against the four ends that an encoded key can give.
module _ {K : Type 0} {k : Key K} {cmp : K → K → Ordering} {IsValid : K → Type 0}
    (law : IsLawful k cmp IsValid) (a x : K) (rest : Bytes) (va : IsValid a) (vx : IsValid x) where
  compare-stored :
      compare_bytes (k.encode a) (k.encode x ++ rest) ≡ then_order (cmp a x) (compare_bytes [] rest)
  compare-stored = rw append-nil at (law.order a x [] rest va vx)

  stored-compare :
      compare_bytes (k.encode x ++ rest) (k.encode a) ≡ then_order (cmp x a) (compare_bytes rest [])
  stored-compare =
      subst
        (λ w. compare_bytes (k.encode x ++ rest) w ≡ then_order (cmp x a) (compare_bytes rest []))
        (append-nil (k.encode a)) (law.order x a rest [] vx va)

  pub start_included :
      after_start compare_bytes (included (k.encode a)) (k.encode x ++ rest) ≡ is_le (cmp a x)
  start_included = ground (arith, compare-stored, nil_le rest)

  pub end_excluded :
      before_end compare_bytes (excluded (k.encode a)) (k.encode x ++ rest) ≡ is_lt (cmp x a)
  end_excluded = ground (arith, stored-compare, not_lt_nil rest)

  module _ (bytes : AreBytes rest) where
    stored-AreBytes : AreBytes (k.encode x ++ rest)
    stored-AreBytes = All-append IsByte (k.encode x) rest (law.bytes x vx) bytes

    pub end_included :
        before_end compare_bytes (prefix_end (k.encode a)) (k.encode x ++ rest) ≡ is_le (cmp x a)
    end_included =
        before_end-prefix_end (k.encode a) (k.encode x ++ rest) (law.bytes a va) stored-AreBytes
        ∙ ground (
          arith,
          stored-compare,
          not_lt_nil rest,
          starts_with-encode law a x rest va vx,
          cmp_flip law a x va vx,
        )

-- Past an end that is not reached.
start_of_end :
    (w : Bytes) (e : Bound Bytes)
    → IsOpen e
    → e ≢ unbounded
    → e ≢ excluded w
    → after_start compare_bytes e w ≡ not (before_end compare_bytes e w)
start_of_end w (included s) o n m = absurd o
start_of_end w (excluded s) o n m =
    ground
      (arith, compare_bytes-flip s w, eq_of_compare_bytes s w, λ (p : s ≡ w). m (ap excluded p))
start_of_end w unbounded o n m = absurd (n refl)

-- A stored key with something behind its own key is never the end of a prefix range.
module _ {K : Type 0} {k : Key K} {cmp : K → K → Ordering} {IsValid : K → Type 0}
    (law : IsLawful k cmp IsValid) (a x : K) (c : ℕ) (r : Bytes) (va : IsValid a) (vx : IsValid x)
    (bytes : AreBytes (c ∷ r)) where
  end_ne_stored : prefix_end (k.encode a) ≢ excluded (k.encode x ++ c ∷ r)
  end_ne_stored e = ground (
    arith,
    starts_with_of_end (k.encode a) (k.encode x) c r e,
    rw append-nil at (starts_with-encode law x a [] vx va),
    end_included law a x (c ∷ r) va vx bytes,
    compare_bytes_refl (k.encode x ++ c ∷ r),
  )

  pub start_excluded :
      prefix_end (k.encode a) ≢ unbounded
      → after_start compare_bytes (prefix_end (k.encode a)) (k.encode x ++ c ∷ r) ≡ is_lt (cmp a x)
  start_excluded n =
      start_of_end (k.encode x ++ c ∷ r) (prefix_end (k.encode a)) (prefix_end-IsOpen (k.encode a))
        n end_ne_stored
      ∙ ground (arith, end_included law a x (c ∷ r) va vx bytes, cmp_flip law a x va vx)

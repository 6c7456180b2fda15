-- ===== src/Key/Tuple.antt =====
-- key.rs: keys that are tuples, encoded by concatenation, and `AppendKey`. A reference `&K` and a
-- one-element tuple `(K,)` delegate every method to `K`, and are `K` here.
use collette.Prelude.{
  ◌+◌, ℕ, ◌≡◌, ◌∙◌, ap, sym, refl, Ordering, eq, then_order, ◌&&◌, Option, none, some, ◌++◌, String,
  append_assoc, arith, length, length-append, All-append,
}
use collette.Prelude.Orders.{lex, then_order_assoc, pair_beq_iff}
use collette.Bytes.{Bytes, compare_bytes, IsByte}
use collette.Key.{KeySize, fixed, variable, Key, IsLawful}

infixl 5 ◌>>=◌
abbrev pub ◌>>=◌ : {A B : Type 0} → Option A → (A → Option B) → Option B
none >>= f = none
some a >>= f = f a

-- `KeySize` of a concatenation.
unfoldable pub add_size : KeySize → KeySize → KeySize
add_size (fixed m) (fixed n) = fixed (m + n)
add_size (fixed m) variable = variable
add_size variable k = variable

module _ {A B : Type 0} (a : Key A) (b : Key B) where
  unfoldable pub decode_pair : Bytes → Option ((A × B) × Bytes)
  decode_pair bytes = do (x, r) ← a.decode_part bytes; (y, r') ← b.decode_part r; some ((x, y), r')

  unfoldable pub pair_key : (A × B → String) → Key (A × B)
  unfolding add_size decode_pair
  pair_key debug = record {
    size = add_size a.size b.size;
    encode = λ k. a.encode k.0 ++ b.encode k.1;
    decode_part = decode_pair;
    beq = λ k l. a.beq k.0 l.0 && b.beq k.1 l.1;
    debug = debug;
  }

add_sizes :
    (s t : KeySize) (n : ℕ) {p q : ℕ}
    → ((m : ℕ) → s ≡ fixed m → p ≡ m)
    → ((m : ℕ) → t ≡ fixed m → q ≡ m)
    → add_size s t ≡ fixed n
    → p + q ≡ n
unfolding add_size
add_sizes (fixed i) (fixed j) n f g e = ground (arith, f i refl, g j refl)
add_sizes (fixed i) variable n f g e = cc
add_sizes variable t n f g e = cc

module _ {A B : Type 0} {a : Key A} {b : Key B} {cmp_a : A → A → Ordering}
    {cmp_b : B → B → Ordering} {ValidA : A → Type 0} {ValidB : B → Type 0}
    (la : IsLawful a cmp_a ValidA) (lb : IsLawful b cmp_b ValidB) (debug : A × B → String) where
  pair_round_trip :
      (k : A × B) (r : Bytes)
      → ValidA k.0
      → ValidB k.1
      → decode_pair a b ((a.encode k.0 ++ b.encode k.1) ++ r) ≡ some (k, r)
  unfolding decode_pair
  pair_round_trip (x, y) r vx vy =
      rw (append_assoc, la.round_trip x (b.encode y ++ r) vx, lb.round_trip y r vy)

  pair_order :
      (k l : A × B) (r s : Bytes)
      → ValidA k.0
      → ValidB k.1
      → ValidA l.0
      → ValidB l.1
      → compare_bytes ((a.encode k.0 ++ b.encode k.1) ++ r) ((a.encode l.0 ++ b.encode l.1) ++ s)
        ≡ then_order (lex cmp_a cmp_b k l) (compare_bytes r s)
  pair_order (x, y) (z, w) r s vx vy vz vw =
      rw (append_assoc (a.encode x) (b.encode y) r, append_assoc (a.encode z) (b.encode w) s)
        (la.order x z (b.encode y ++ r) (b.encode w ++ s) vx vz
          ∙ (ap (then_order (cmp_a x z)) (lb.order y w r s vy vw)
              ∙ sym (then_order_assoc (cmp_a x z) (cmp_b y w) (compare_bytes r s))))

  pair_sized :
      (k : A × B) (n : ℕ)
      → ValidA k.0
      → ValidB k.1
      → add_size a.size b.size ≡ fixed n
      → length (a.encode k.0 ++ b.encode k.1) ≡ n
  unfolding add_size
  pair_sized (x, y) n vx vy e =
      length-append (a.encode x) (b.encode y)
      ∙ add_sizes a.size b.size n (λ m q. la.sized x m vx q) (λ m q. lb.sized y m vy q) e

  eq_of_lex : (k l : A × B) → lex cmp_a cmp_b k l ≡ eq → k ≡ l
  eq_of_lex (x, y) (z, w) h = ground (arith, la.eq_of_cmp x z, lb.eq_of_cmp y w)

  lex_refl : (k : A × B) → lex cmp_a cmp_b k k ≡ eq
  lex_refl (x, y) = rw (la.cmp_refl x, lb.cmp_refl y)

  -- A pair of lawful keys is a lawful key for the lexicographic order, at the pairs of valid keys.
  pub pair_key-IsLawful :
      IsLawful (pair_key a b debug) (lex cmp_a cmp_b) (λ k. ValidA k.0 × ValidB k.1)
  unfolding pair_key
  pair_key-IsLawful = record {
    round_trip = λ k r v. pair_round_trip k r v.0 v.1;
    order = λ k l r s v w. pair_order k l r s v.0 v.1 w.0 w.1;
    sized = λ k n v e. pair_sized k n v.0 v.1 e;
    bytes = λ k v.
        All-append IsByte (a.encode k.0) (b.encode k.1) (la.bytes k.0 v.0) (lb.bytes k.1 v.1);
    cmp_refl = lex_refl;
    eq_of_cmp = eq_of_lex;
    beq_iff = pair_beq_iff la.beq_iff lb.beq_iff;
  }

-- ===== src/Key/Triple.antt =====
-- key.rs: keys that are triples. The bytes are those of the pair of the first two, and the third.
use collette.Prelude.{◌≡◌, Ordering, ◌&&◌, Option, some, ◌++◌, String, append_assoc, ap}
use collette.Prelude.Orders.{lex}
use collette.Bytes.{Bytes}
use collette.Key.{Key, IsLawful}
use collette.Key.Tuple.{◌>>=◌, add_size, pair_key, pair_key-IsLawful}

module _ {A B C : Type 0} (a : Key A) (b : Key B) (c : Key C) where
  unfoldable pub decode_triple : Bytes → Option ((A × B × C) × Bytes)
  decode_triple bytes = do
    (x, r) ← a.decode_part bytes
    (y, r') ← b.decode_part r
    (z, r'') ← c.decode_part r'
    some ((x, y, z), r'')

  unfoldable pub triple_key : (A × B × C → String) → Key (A × B × C)
  unfolding add_size decode_triple
  triple_key debug = record {
    size = add_size (add_size a.size b.size) c.size;
    encode = λ k. (a.encode k.0 ++ b.encode k.1) ++ c.encode k.2;
    decode_part = decode_triple;
    beq = λ k l. (a.beq k.0 l.0 && b.beq k.1 l.1) && c.beq k.2 l.2;
    debug = debug;
  }

abbrev pub nested : {A B C : Type 0} → A × B × C → (A × B) × C
nested (x, y, z) = ((x, y), z)

abbrev pub flat : {A B C : Type 0} → (A × B) × C → A × B × C
flat ((x, y), z) = (x, y, z)

module _ {A B C : Type 0} (cmp_a : A → A → Ordering) (cmp_b : B → B → Ordering)
    (cmp_c : C → C → Ordering) where
  abbrev pub lex3 : A × B × C → A × B × C → Ordering
  lex3 k l = lex (lex cmp_a cmp_b) cmp_c (nested k) (nested l)

module _ {A B C : Type 0} {a : Key A} {b : Key B} {c : Key C} {cmp_a : A → A → Ordering}
    {cmp_b : B → B → Ordering} {cmp_c : C → C → Ordering} {ValidA : A → Type 0}
    {ValidB : B → Type 0} {ValidC : C → Type 0} (la : IsLawful a cmp_a ValidA)
    (lb : IsLawful b cmp_b ValidB) (lc : IsLawful c cmp_c ValidC) (debug : A × B × C → String) where
  abbrev pair_debug : A × B → String
  pair_debug _ = ""

  abbrev nested_debug : (A × B) × C → String
  nested_debug _ = ""

  nested_law :
      IsLawful
        (pair_key (pair_key a b pair_debug) c nested_debug)
        (lex (lex cmp_a cmp_b) cmp_c)
        (λ k. (ValidA k.0.0 × ValidB k.0.1) × ValidC k.1)
  nested_law = pair_key-IsLawful (pair_key-IsLawful la lb pair_debug) lc nested_debug

  triple_round_trip :
      (k : A × B × C) (r : Bytes)
      → ValidA k.0
      → ValidB k.1
      → ValidC k.2
      → decode_triple a b c (((a.encode k.0 ++ b.encode k.1) ++ c.encode k.2) ++ r) ≡ some (k, r)
  unfolding decode_triple
  triple_round_trip (x, y, z) r vx vy vz = rw (
    append_assoc (a.encode x ++ b.encode y) (c.encode z) r,
    append_assoc (a.encode x) (b.encode y) (c.encode z ++ r),
    la.round_trip x (b.encode y ++ (c.encode z ++ r)) vx,
    lb.round_trip y (c.encode z ++ r) vy,
    lc.round_trip z r vz,
  )

  -- A triple of lawful keys is a lawful key for the lexicographic order, at the triples of valid
  -- keys.
  pub triple_key-IsLawful :
      IsLawful
        (triple_key a b c debug)
        (lex3 cmp_a cmp_b cmp_c)
        (λ k. ValidA k.0 × ValidB k.1 × ValidC k.2)
  unfolding triple_key pair_key
  triple_key-IsLawful = record {
    round_trip = λ k r v. triple_round_trip k r v.0 v.1 v.2;
    order = λ k l r s v w.
        nested_law.order (nested k) (nested l) r s ((v.0, v.1), v.2) ((w.0, w.1), w.2);
    sized = λ k n v e. nested_law.sized (nested k) n ((v.0, v.1), v.2) e;
    bytes = λ k v. nested_law.bytes (nested k) ((v.0, v.1), v.2);
    cmp_refl = λ k. nested_law.cmp_refl (nested k);
    eq_of_cmp = λ k l e. ap flat (nested_law.eq_of_cmp (nested k) (nested l) e);
    beq_iff = λ k l. (
      λ e. ap flat ((nested_law.beq_iff (nested k) (nested l)).0 e),
      λ e. (nested_law.beq_iff (nested k) (nested l)).1 (ap nested e),
    );
  }

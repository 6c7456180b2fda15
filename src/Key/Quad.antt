-- ===== src/Key/Quad.antt =====
-- key.rs: keys of four parts. The bytes are those of the triple of the first three, and the fourth.
use collette.Prelude.{◌≡◌, Ordering, ◌&&◌, Option, some, ◌++◌, String, append_assoc, ap}
use collette.Prelude.Orders.{lex}
use collette.Bytes.{Bytes}
use collette.Key.{Key, IsLawful}
use collette.Key.Tuple.{◌>>=◌, add_size, pair_key, pair_key-IsLawful}
use collette.Key.Triple.{triple_key, lex3, triple_key-IsLawful}

module _ {A B C D : Type 0} (a : Key A) (b : Key B) (c : Key C) (d : Key D) where
  unfoldable pub decode_quad : Bytes → Option ((A × B × C × D) × Bytes)
  decode_quad bytes = do
    (w, r) ← a.decode_part bytes
    (x, r') ← b.decode_part r
    (y, r'') ← c.decode_part r'
    (z, r''') ← d.decode_part r''
    some ((w, x, y, z), r''')

  unfoldable pub quad_key : (A × B × C × D → String) → Key (A × B × C × D)
  unfolding add_size decode_quad
  quad_key debug = record {
    size = add_size (add_size (add_size a.size b.size) c.size) d.size;
    encode = λ k. ((a.encode k.0 ++ b.encode k.1) ++ c.encode k.2) ++ d.encode k.3;
    decode_part = decode_quad;
    beq = λ k l. ((a.beq k.0 l.0 && b.beq k.1 l.1) && c.beq k.2 l.2) && d.beq k.3 l.3;
    debug = debug;
  }

-- The first three parts, and the fourth.
abbrev pub split_last : {A B C D : Type 0} → A × B × C × D → (A × B × C) × D
split_last (w, x, y, z) = ((w, x, y), z)

abbrev pub join_last : {A B C D : Type 0} → (A × B × C) × D → A × B × C × D
join_last ((w, x, y), z) = (w, x, y, z)

module _ {A B C D : Type 0} (cmp_a : A → A → Ordering) (cmp_b : B → B → Ordering)
    (cmp_c : C → C → Ordering) (cmp_d : D → D → Ordering) where
  abbrev pub lex4 : A × B × C × D → A × B × C × D → Ordering
  lex4 k l = lex (lex3 cmp_a cmp_b cmp_c) cmp_d (split_last k) (split_last l)

module _ {A B C D : Type 0} {a : Key A} {b : Key B} {c : Key C} {d : Key D}
    {cmp_a : A → A → Ordering} {cmp_b : B → B → Ordering} {cmp_c : C → C → Ordering}
    {cmp_d : D → D → Ordering} {ValidA : A → Type 0} {ValidB : B → Type 0} {ValidC : C → Type 0}
    {ValidD : D → Type 0} (la : IsLawful a cmp_a ValidA) (lb : IsLawful b cmp_b ValidB)
    (lc : IsLawful c cmp_c ValidC) (ld : IsLawful d cmp_d ValidD)
    (debug : A × B × C × D → String) where
  abbrev triple_debug : A × B × C → String
  triple_debug _ = ""

  abbrev split_debug : (A × B × C) × D → String
  split_debug _ = ""

  split_law :
      IsLawful
        (pair_key (triple_key a b c triple_debug) d split_debug)
        (lex (lex3 cmp_a cmp_b cmp_c) cmp_d)
        (λ k. (ValidA k.0.0 × ValidB k.0.1 × ValidC k.0.2) × ValidD k.1)
  split_law = pair_key-IsLawful (triple_key-IsLawful la lb lc triple_debug) ld split_debug

  quad_round_trip :
      (k : A × B × C × D) (r : Bytes)
      → ValidA k.0
      → ValidB k.1
      → ValidC k.2
      → ValidD k.3
      → decode_quad a b c d
          ((((a.encode k.0 ++ b.encode k.1) ++ c.encode k.2) ++ d.encode k.3) ++ r)
        ≡ some (k, r)
  unfolding decode_quad
  quad_round_trip (w, x, y, z) r vw vx vy vz = rw (
    append_assoc ((a.encode w ++ b.encode x) ++ c.encode y) (d.encode z) r,
    append_assoc (a.encode w ++ b.encode x) (c.encode y) (d.encode z ++ r),
    append_assoc (a.encode w) (b.encode x) (c.encode y ++ (d.encode z ++ r)),
    la.round_trip w (b.encode x ++ (c.encode y ++ (d.encode z ++ r))) vw,
    lb.round_trip x (c.encode y ++ (d.encode z ++ r)) vx,
    lc.round_trip y (d.encode z ++ r) vy,
    ld.round_trip z r vz,
  )

  -- A quadruple of lawful keys is a lawful key for the lexicographic order, at the quadruples of
  -- valid keys.
  pub quad_key-IsLawful :
      IsLawful
        (quad_key a b c d debug)
        (lex4 cmp_a cmp_b cmp_c cmp_d)
        (λ k. ValidA k.0 × ValidB k.1 × ValidC k.2 × ValidD k.3)
  unfolding quad_key triple_key pair_key
  quad_key-IsLawful = record {
    round_trip = λ k r v. quad_round_trip k r v.0 v.1 v.2 v.3;
    order = λ k l r s v w.
        split_law.order (split_last k) (split_last l) r s ((v.0, v.1, v.2), v.3)
          ((w.0, w.1, w.2), w.3);
    sized = λ k n v e. split_law.sized (split_last k) n ((v.0, v.1, v.2), v.3) e;
    bytes = λ k v. split_law.bytes (split_last k) ((v.0, v.1, v.2), v.3);
    cmp_refl = λ k. split_law.cmp_refl (split_last k);
    eq_of_cmp = λ k l e. ap join_last (split_law.eq_of_cmp (split_last k) (split_last l) e);
    beq_iff = λ k l. (
      λ e. ap join_last ((split_law.beq_iff (split_last k) (split_last l)).0 e),
      λ e. (split_law.beq_iff (split_last k) (split_last l)).1 (ap split_last e),
    );
  }

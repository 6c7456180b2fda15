-- ===== src/Bounds/Instances.antt =====
-- The instances of `Prefixable` for tuples compose as they should.
use collette.Prelude.{refl, String, Ordering, append_assoc, ◌++◌, then_order, ap, ◌∙◌}
use collette.Prelude.Orders.{lex, then_order_assoc}
use collette.Bytes.{Bytes}
use collette.Key.{Key}
use collette.Key.Tuple.{pair_key}
use collette.Key.Triple.{triple_key, lex3}
use collette.Key.Quad.{quad_key, lex4}
use collette.Bounds.{
  pair_by_first, triple_by_first, triple_by_two, quad_by_first, quad_by_two, quad_by_three,
}
use collette.Bounds.Prefixed.{Composes}

-- A pair is composed of its parts.
pub pair_by_first-Composes :
    {A B : Type 0} (a : Key A) (b : Key B) (cmp_a : A → A → Ordering) (cmp_b : B → B → Ordering)
    (debug : A × B → String)
    → Composes (pair_key a b debug) a b (lex cmp_a cmp_b) cmp_a cmp_b pair_by_first
unfolding pair_key pair_by_first
pair_by_first-Composes a b cmp_a cmp_b debug = record {
  encode-compose = λ p s. refl;
  cmp-compose = λ p q s t. refl;
}

module _ {A B C : Type 0} (a : Key A) (b : Key B) (c : Key C) (cmp_a : A → A → Ordering)
    (cmp_b : B → B → Ordering) (cmp_c : C → C → Ordering) (debug : A × B × C → String)
    (pair_debug : A × B → String) (tail_debug : B × C → String) where
  -- A triple is composed of its first part and the pair of the other two.
  pub triple_by_first-Composes :
      Composes
        (triple_key a b c debug)
        a
        (pair_key b c tail_debug)
        (lex3 cmp_a cmp_b cmp_c)
        cmp_a
        (lex cmp_b cmp_c)
        triple_by_first
  unfolding pair_key triple_key triple_by_first
  triple_by_first-Composes = record {
    encode-compose = λ p s. append_assoc (a.encode p) (b.encode s.0) (c.encode s.1);
    cmp-compose = λ p q s t. then_order_assoc (cmp_a p q) (cmp_b s.0 t.0) (cmp_c s.1 t.1);
  }

  -- A triple is composed of the pair of its first two parts and the third.
  pub triple_by_two-Composes :
      Composes
        (triple_key a b c debug)
        (pair_key a b pair_debug)
        c
        (lex3 cmp_a cmp_b cmp_c)
        (lex cmp_a cmp_b)
        cmp_c
        triple_by_two
  unfolding pair_key triple_key triple_by_two
  triple_by_two-Composes = record { encode-compose = λ p s. refl; cmp-compose = λ p q s t. refl }

module _ {A B C D : Type 0} (a : Key A) (b : Key B) (c : Key C) (d : Key D)
    (cmp_a : A → A → Ordering) (cmp_b : B → B → Ordering) (cmp_c : C → C → Ordering)
    (cmp_d : D → D → Ordering) (debug : A × B × C × D → String) where
  -- A quadruple is composed of its first part and the triple of the others.
  pub quad_by_first-Composes :
      (tail_debug : B × C × D → String)
      → Composes
          (quad_key a b c d debug)
          a
          (triple_key b c d tail_debug)
          (lex4 cmp_a cmp_b cmp_c cmp_d)
          cmp_a
          (lex3 cmp_b cmp_c cmp_d)
          quad_by_first
  unfolding quad_key triple_key quad_by_first
  quad_by_first-Composes tail_debug = record {
    encode-compose = λ p s.
        ap (λ (x : Bytes). x ++ d.encode s.2)
          (append_assoc (a.encode p) (b.encode s.0) (c.encode s.1))
        ∙ append_assoc (a.encode p) (b.encode s.0 ++ c.encode s.1) (d.encode s.2);
    cmp-compose = λ p q s t.
        ap (λ (o : Ordering). then_order o (cmp_d s.2 t.2))
          (then_order_assoc (cmp_a p q) (cmp_b s.0 t.0) (cmp_c s.1 t.1))
        ∙ then_order_assoc (cmp_a p q) (then_order (cmp_b s.0 t.0) (cmp_c s.1 t.1)) (cmp_d s.2 t.2);
  }

  -- A quadruple is composed of the pair of its first two parts and the pair of the others.
  pub quad_by_two-Composes :
      (pair_debug : A × B → String) (tail_debug : C × D → String)
      → Composes
          (quad_key a b c d debug)
          (pair_key a b pair_debug)
          (pair_key c d tail_debug)
          (lex4 cmp_a cmp_b cmp_c cmp_d)
          (lex cmp_a cmp_b)
          (lex cmp_c cmp_d)
          quad_by_two
  unfolding quad_key pair_key quad_by_two
  quad_by_two-Composes pair_debug tail_debug = record {
    encode-compose =
        λ p s. append_assoc (a.encode p.0 ++ b.encode p.1) (c.encode s.0) (d.encode s.1);
    cmp-compose = λ p q s t.
        then_order_assoc (then_order (cmp_a p.0 q.0) (cmp_b p.1 q.1)) (cmp_c s.0 t.0)
          (cmp_d s.1 t.1);
  }

  -- A quadruple is composed of the triple of its first three parts and the fourth.
  pub quad_by_three-Composes :
      (triple_debug : A × B × C → String)
      → Composes
          (quad_key a b c d debug)
          (triple_key a b c triple_debug)
          d
          (lex4 cmp_a cmp_b cmp_c cmp_d)
          (lex3 cmp_a cmp_b cmp_c)
          cmp_d
          quad_by_three
  unfolding quad_key triple_key quad_by_three
  quad_by_three-Composes triple_debug = record {
    encode-compose = λ p s. refl;
    cmp-compose = λ p q s t. refl;
  }

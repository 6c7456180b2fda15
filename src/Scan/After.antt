-- ===== src/Scan/After.antt =====
-- The range of a scan that starts after a cursor.
use collette.Prelude.{
  ap, sym, ◌∙◌, Bool-cases, inl, inr, Option, none, some, ◌≡◌, refl, Bool, true, false, ◌&&◌, arith,
}
use collette.Bytes.{Bytes, compare_bytes}
use collette.Bytes.Order.{eq_of_compare_bytes, lt_bytes_trans}
use collette.Outcome.{ok_injective, >>=-eq_ok, ok, err, cursor_out_of_bounds}
use collette.Range.{Bound, included, excluded, unbounded, after_start, before_end, contains, is_lt}
use collette.Key.{Key}
use collette.Map.{is_range}
use collette.Store.{past, Direction, left_to_right, right_to_left}
use collette.Scan.{
  full, prefixed, ranged, directed, CompiledScan, Scan, after, compile, cursor_key, into_key_vec,
  start_after, tighten,
}

start_past :
    (s : Bound Bytes) (c k : Bytes)
    → after_start compare_bytes s c ≡ true
    → is_lt (compare_bytes c k) ≡ true
    → after_start compare_bytes s k ≡ true
start_past (included s) c k h l = ground (arith, lt_bytes_trans s c k, eq_of_compare_bytes s c)
start_past (excluded s) c k h l = ground (arith, lt_bytes_trans s c k)
start_past unbounded c k h l = refl

end_past :
    (e : Bound Bytes) (c k : Bytes)
    → before_end compare_bytes e c ≡ true
    → is_lt (compare_bytes k c) ≡ true
    → before_end compare_bytes e k ≡ true
end_past (included e) c k h l = ground (arith, lt_bytes_trans k c e, eq_of_compare_bytes c e)
end_past (excluded e) c k h l = ground (arith, lt_bytes_trans k c e)
end_past unbounded c k h l = refl

module _ (c : Bytes) where
  range_from :
      (e : Bound Bytes) → before_end compare_bytes e c ≡ true → is_range (excluded c, e) ≡ true
  range_from (included e) h = h
  range_from (excluded e) h = h
  range_from unbounded h = refl

  range_to :
      (s : Bound Bytes) → after_start compare_bytes s c ≡ true → is_range (s, excluded c) ≡ true
  range_to (included s) h = h
  range_to (excluded s) h = h
  range_to unbounded h = refl

module _ {E : Type 0} (c : Bytes) where
  pub contains-tighten :
      (d : Direction) (scan : CompiledScan E) (k : Bytes)
      → contains compare_bytes scan.range c ≡ true
      → contains compare_bytes (tighten d c scan).range k
        ≡ (contains compare_bytes scan.range k && past d c k)
  unfolding tighten
  contains-tighten left_to_right scan k h = ground (arith, start_past scan.range.0 c k)
  contains-tighten right_to_left scan k h = ground (arith, end_past scan.range.1 c k)

  pub tighten-is_range :
      (d : Direction) (scan : CompiledScan E)
      → contains compare_bytes scan.range c ≡ true
      → is_range (tighten d c scan).range ≡ true
  unfolding tighten
  tighten-is_range left_to_right scan h = range_from c scan.range.1 (ground arith)
  tighten-is_range right_to_left scan h = range_to c scan.range.0 (ground arith)

  -- What a scan becomes when it starts after `c`: a range that the store can scan, of those keys
  -- of the old range that come after `c`.
  pub record StartsAfter (scan scan' : CompiledScan E) : Type 0 where
    pub executor_kept : scan'.executor ≡ scan.executor
    pub direction_kept : scan'.direction ≡ scan.direction
    pub is_scannable : is_range scan'.range ≡ true
    pub contains_lem :
        (k : Bytes)
        → contains compare_bytes scan'.range k
          ≡ (contains compare_bytes scan.range k && past scan.direction c k)

  tighten-executor :
      (d : Direction) (scan : CompiledScan E) → (tighten d c scan).executor ≡ scan.executor
  unfolding tighten
  tighten-executor left_to_right scan = refl
  tighten-executor right_to_left scan = refl

  tighten-direction :
      (d : Direction) (scan : CompiledScan E) → (tighten d c scan).direction ≡ scan.direction
  unfolding tighten
  tighten-direction left_to_right scan = refl
  tighten-direction right_to_left scan = refl

  pub tighten-StartsAfter :
      (scan : CompiledScan E)
      → contains compare_bytes scan.range c ≡ true
      → StartsAfter scan (tighten scan.direction c scan)
  tighten-StartsAfter scan h = record {
    executor_kept = tighten-executor scan.direction scan;
    direction_kept = tighten-direction scan.direction scan;
    is_scannable = tighten-is_range scan.direction scan h;
    contains_lem = λ k. contains-tighten scan.direction scan k h;
  }

  -- The compilation of a scan that starts after the cursor `c`, from that of the inner scan.
  abbrev pub AfterOutcome : {P : Type 0} → Key P → Scan E P → CompiledScan E → Bool → Type 0
  AfterOutcome kp inner scan true =
      (scan' : CompiledScan E) × (compile kp (after (cursor_key c) inner) ≡ ok scan')
      × StartsAfter scan scan'
  AfterOutcome kp inner scan false =
      compile kp (after (cursor_key c) inner) ≡ err cursor_out_of_bounds

  after_outcome :
      {P : Type 0} (kp : Key P) (inner : Scan E P) (scan : CompiledScan E) (inside : Bool)
      → compile kp inner ≡ ok scan
      → contains compare_bytes scan.range c ≡ inside
      → AfterOutcome kp inner scan inside
  unfolding compile start_after into_key_vec
  after_outcome kp inner scan true e h =
      (tighten scan.direction c scan, rw (e, h), tighten-StartsAfter scan h)
  after_outcome kp inner scan false e h = rw (e, h)

  -- If the inner scan compiles, then a scan that starts after the cursor compiles exactly if the
  -- cursor lies in the range of the inner scan, and fails else as out of bounds. Its range can be
  -- scanned without a panic, and contains the keys of the inner range that come after the cursor
  -- in the direction.
  pub compile-after :
      {P : Type 0} (kp : Key P) (inner : Scan E P) (scan : CompiledScan E)
      → compile kp inner ≡ ok scan
      → AfterOutcome kp inner scan (contains compare_bytes scan.range c)
  compile-after kp inner scan e = after_outcome kp inner scan _ e refl

start_after-executor :
    {E : Type 0} (c : Option Bytes) (compiled compiled' : CompiledScan E)
    → start_after c compiled ≡ ok compiled'
    → compiled'.executor ≡ compiled.executor
unfolding start_after
start_after-executor none compiled compiled' e = ap (λ x. x.executor) (sym (ok_injective e))
start_after-executor (some c) compiled compiled' e =
    elim (Bool-cases (contains compare_bytes compiled.range c)) [
      | inl h ↦
          let q = rw (h, start_after) at e in
          ap (λ x. x.executor) (sym (ok_injective q))
          ∙ tighten-executor c compiled.direction compiled
      | inr h ↦ let q = rw (h, start_after) at e in absurd (cc)
    ]

module _ {E P : Type 0} where
  -- The executor of a chain of builders, which its compilation keeps.
  abbrev pub executor_in : Scan E P → E
  executor_in (full executor) = executor
  executor_in (prefixed prefix inner) = executor_in inner
  executor_in (ranged r inner) = executor_in inner
  executor_in (directed d inner) = executor_in inner
  executor_in (after c inner) = executor_in inner

  pub compile-executor :
      (kp : Key P) (s : Scan E P) (scan : CompiledScan E)
      → compile kp s ≡ ok scan
      → scan.executor ≡ executor_in s
  unfolding compile
  compile-executor kp (full executor) scan e = ap (λ x. x.executor) (sym (ok_injective e))
  compile-executor kp (prefixed prefix inner) scan e =
      let (s, q, r) = >>=-eq_ok (compile kp inner) _ e in
      ap (λ x. x.executor) (sym (ok_injective r)) ∙ compile-executor kp inner s q
  compile-executor kp (ranged br inner) scan e =
      let (s, q, r) = >>=-eq_ok (compile kp inner) _ e in
      ap (λ x. x.executor) (sym (ok_injective r)) ∙ compile-executor kp inner s q
  compile-executor kp (directed d inner) scan e =
      let (s, q, r) = >>=-eq_ok (compile kp inner) _ e in
      ap (λ x. x.executor) (sym (ok_injective r)) ∙ compile-executor kp inner s q
  compile-executor kp (after c inner) scan e =
      let (s, q, r) = >>=-eq_ok (compile kp inner) _ e in
      start_after-executor (into_key_vec c) s scan r ∙ compile-executor kp inner s q

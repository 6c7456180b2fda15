-- ===== src/Key/Text.antt =====
-- key.rs: the key types `&str` and `String`. A string is its bytes. The standard library's check
-- of UTF-8 is a parameter; of it only is used that valid text has no byte 0xff.
use mathlib.Core.Option
use collette.Prelude.{
  ℕ, suc, ◌≡◌, refl, ◌<◌, compare, Ordering, lt, eq, gt, then_order, Bool, true, ◌==◌,
  if◌then◌else◌, Option, none, some, [], ◌∷◌, ◌++◌, append_assoc, String, arith, All,
}
use collette.Bytes.{Bytes, AreBytes, compare_bytes, split_at, ◌=ᵇ◌}
use collette.Bytes.Order.{=ᵇ_iff}
use collette.Key.{Key, variable, IsLawful}

abbrev pub end_byte : ℕ
end_byte = 0xff

-- `bytes.iter().position(|&b| b == 0xff)`
position_end : Bytes → Option ℕ
position_end [] = none
position_end (b ∷ bs) = if b == end_byte then some 0 else Option.map (λ n. suc n) (position_end bs)

-- The bytes before the end byte, checked, and those behind it.
text_part : (Bytes → Bool) → Bytes → Bytes → Option (Bytes × Bytes)
text_part utf8 text [] = none
text_part utf8 text (b ∷ r) = if utf8 text then some (text, r) else none

decode_str_at : (Bytes → Bool) → Bytes → Option ℕ → Option (Bytes × Bytes)
unfolding text_part
decode_str_at utf8 bytes none = none
decode_str_at utf8 bytes (some n) = elim (split_at n bytes) [
  | none ↦ none
  | some (text, tail) ↦ text_part utf8 text tail
]

unfoldable pub decode_str : (Bytes → Bool) → Bytes → Option (Bytes × Bytes)
unfolding position_end decode_str_at
decode_str utf8 bytes = decode_str_at utf8 bytes (position_end bytes)

unfoldable pub str_key : (Bytes → Bool) → (Bytes → String) → Key Bytes
unfolding decode_str
str_key utf8 debug = record {
  size = variable;
  encode = λ s. s ++ end_byte ∷ [];
  decode_part = decode_str utf8;
  beq = ◌=ᵇ◌;
  debug = debug;
}

-- What the order of the encodings is on strings: as for bytes, but a string comes after its
-- extensions.
abbrev pub compare_ended : Bytes → Bytes → Ordering
compare_ended [] [] = eq
compare_ended [] (b ∷ bs) = gt
compare_ended (a ∷ as') [] = lt
compare_ended (a ∷ as') (b ∷ bs) = then_order (compare a b) (compare_ended as' bs)

-- No byte is the end byte.
abbrev pub LacksEnd : Bytes → Type 0
LacksEnd = All (λ b. b < end_byte)

compare_ended_refl : (a : Bytes) → compare_ended a a ≡ eq
compare_ended_refl [] = refl
compare_ended_refl (x ∷ a) = ground (arith, compare_ended_refl a)

eq_of_compare_ended : (a b : Bytes) → compare_ended a b ≡ eq → a ≡ b
eq_of_compare_ended [] [] h = refl
eq_of_compare_ended [] (y ∷ b) h = cc
eq_of_compare_ended (x ∷ a) [] h = cc
eq_of_compare_ended (x ∷ a) (y ∷ b) h = ground (arith, eq_of_compare_ended a b)

compare-end :
    (a b r s : Bytes)
    → LacksEnd a
    → LacksEnd b
    → compare_bytes (a ++ end_byte ∷ r) (b ++ end_byte ∷ s)
      ≡ then_order (compare_ended a b) (compare_bytes r s)
unfolding compare_bytes
compare-end [] [] r s h k = ground arith
compare-end [] (y ∷ b) r s h k = ground arith
compare-end (x ∷ a) [] r s h k = ground arith
compare-end (x ∷ a) (y ∷ b) r s h k = ground (arith, compare-end a b r s h.1 k.1)

position-end :
    (a r : Bytes)
    → LacksEnd a
    → (n : ℕ) × (position_end (a ++ end_byte ∷ r) ≡ some n)
      × (split_at n (a ++ end_byte ∷ r) ≡ some (a, end_byte ∷ r))
unfolding position_end split_at
position-end [] r h = (0, refl, refl)
position-end (x ∷ a) r h =
    let (n, p, q) = position-end a r h.1 in (suc n, ground arith, ground arith)

compare-extension : (s : Bytes) (c : ℕ) (t : Bytes) → compare_bytes s (s ++ c ∷ t) ≡ lt
unfolding compare_bytes
compare-extension [] c t = refl
compare-extension (x ∷ s) c t = ground (arith, compare-extension s c t)

encoded-extension :
    (s : Bytes) (c : ℕ) (t : Bytes)
    → LacksEnd (s ++ c ∷ t)
    → compare_bytes ((s ++ c ∷ t) ++ end_byte ∷ []) (s ++ end_byte ∷ []) ≡ lt
unfolding compare_bytes
encoded-extension [] c t h = ground arith
encoded-extension (x ∷ s) c t h = ground (arith, encoded-extension s c t h.1)

module _ (utf8 : Bytes → Bool) (utf8_lacks_end : (s : Bytes) → utf8 s ≡ true → LacksEnd s) where
  decode_str_lem : (a r : Bytes) → utf8 a ≡ true → decode_str utf8 (a ++ end_byte ∷ r) ≡ some (a, r)
  unfolding decode_str
  decode_str_lem a r h =
      let (n, p, q) = position-end a r (utf8_lacks_end a h) in
      rw (p, q, h, decode_str_at, text_part)

  ended-AreBytes : (a : Bytes) → LacksEnd a → AreBytes (a ++ end_byte ∷ [])
  ended-AreBytes [] h = omega arith
  ended-AreBytes (x ∷ a) h = (omega arith, ended-AreBytes a h.1)

  -- The encoding of strings round-trips and is lawful for the order in which a string comes after
  -- its extensions, at all valid text, where valid text has no byte 0xff.
  pub str_key-IsLawful :
      (debug : Bytes → String) → IsLawful (str_key utf8 debug) compare_ended (λ s. utf8 s ≡ true)
  unfolding str_key
  str_key-IsLawful debug = record {
    round_trip = λ a r h. rw append_assoc (decode_str_lem a r h);
    order = λ a b r s h k.
        rw (append_assoc a _ r, append_assoc b _ s)
          (compare-end a b r s (utf8_lacks_end a h) (utf8_lacks_end b k));
    sized = λ a n h e. cc;
    bytes = λ a h. ended-AreBytes a (utf8_lacks_end a h);
    cmp_refl = compare_ended_refl;
    eq_of_cmp = eq_of_compare_ended;
    beq_iff = =ᵇ_iff;
  }

  -- The encodings of a string and of a valid extension of it compare the other way round than the
  -- strings themselves.
  pub str_key_extension :
      (debug : Bytes → String) (s : Bytes) (c : ℕ) (t : Bytes)
      → utf8 (s ++ c ∷ t) ≡ true
      → (compare_bytes s (s ++ c ∷ t) ≡ lt)
        × (compare_bytes ((str_key utf8 debug).encode (s ++ c ∷ t)) ((str_key utf8 debug).encode s)
            ≡ lt)
  unfolding str_key
  str_key_extension debug s c t h =
      (compare-extension s c t, encoded-extension s c t (utf8_lacks_end (s ++ c ∷ t) h))

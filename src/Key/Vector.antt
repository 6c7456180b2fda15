-- ===== src/Key/Vector.antt =====
-- key.rs: `encode_unsized_key_bytes`, `decode_unsized_key_bytes` and the key type `Vec<u8>`.
use collette.Prelude.{
  zero, suc, ◌≡◌, sym, ◌∙◌, then_order, ◌==◌, if◌then◌else◌, Option, none, some, [], ◌∷◌, ◌++◌,
  append_assoc, append-nil, String, arith,
}
use mathlib.Core.Path.{subst}
use collette.Bytes.{Bytes, AreBytes, compare_bytes, ◌=ᵇ◌}
use collette.Bytes.Order.{compare_bytes_refl, eq_of_compare_bytes, =ᵇ_iff}
use collette.Key.{Key, variable, IsLawful}

-- Appends the escaped bytes and the terminator to `out`.
unfoldable pub encode_unsized_key_bytes : Bytes → Bytes → Bytes
encode_unsized_key_bytes [] out = out ++ 0x00 ∷ 0x00 ∷ []
encode_unsized_key_bytes (zero ∷ bs) out = encode_unsized_key_bytes bs (out ++ 0x00 ∷ 0xff ∷ [])
encode_unsized_key_bytes (suc b ∷ bs) out = encode_unsized_key_bytes bs (out ++ suc b ∷ [])

-- The `while` loop over the bytes from index `i` on; `none` is a panic.
decode_unsized_after : Bytes → Bytes → Option (Bytes × Bytes)
decode_unsized_after out [] = none
decode_unsized_after out (zero ∷ []) = none
decode_unsized_after out (zero ∷ zero ∷ rest) = some (out, rest)
decode_unsized_after out (zero ∷ suc other ∷ rest) =
    let unescaped = decode_unsized_after (out ++ 0x00 ∷ []) rest in
    if suc other == 0xff then unescaped else none
decode_unsized_after out (suc b ∷ rest) = decode_unsized_after (out ++ suc b ∷ []) rest

unfoldable pub decode_unsized_key_bytes : Bytes → Option (Bytes × Bytes)
unfolding decode_unsized_after
decode_unsized_key_bytes bytes = decode_unsized_after [] bytes

unfoldable pub vec_key : (Bytes → String) → Key Bytes
unfolding encode_unsized_key_bytes decode_unsized_key_bytes
vec_key debug = record {
  size = variable;
  encode = λ v. encode_unsized_key_bytes v [];
  decode_part = decode_unsized_key_bytes;
  beq = ◌=ᵇ◌;
  debug = debug;
}

-- The escaped bytes and the terminator, with `rest` behind.
abbrev framed : Bytes → Bytes → Bytes
framed [] rest = 0x00 ∷ 0x00 ∷ rest
framed (zero ∷ bs) rest = 0x00 ∷ 0xff ∷ framed bs rest
framed (suc b ∷ bs) rest = suc b ∷ framed bs rest

encode-eq-framed :
    (bs out rest : Bytes) → encode_unsized_key_bytes bs out ++ rest ≡ out ++ framed bs rest
unfolding encode_unsized_key_bytes
encode-eq-framed [] out rest = append_assoc out _ rest
encode-eq-framed (zero ∷ bs) out rest =
    encode-eq-framed bs (out ++ 0x00 ∷ 0xff ∷ []) rest ∙ append_assoc out _ _
encode-eq-framed (suc b ∷ bs) out rest =
    encode-eq-framed bs (out ++ suc b ∷ []) rest ∙ append_assoc out _ _

decode-framed :
    (bs out rest : Bytes) → decode_unsized_after out (framed bs rest) ≡ some (out ++ bs, rest)
unfolding decode_unsized_after
decode-framed [] out rest = rw append-nil
decode-framed (zero ∷ bs) out rest = rw (decode-framed bs (out ++ 0x00 ∷ []) rest, append_assoc)
decode-framed (suc b ∷ bs) out rest = rw (decode-framed bs (out ++ suc b ∷ []) rest, append_assoc)

compare-framed :
    (a b r s : Bytes)
    → compare_bytes (framed a r) (framed b s) ≡ then_order (compare_bytes a b) (compare_bytes r s)
unfolding compare_bytes
compare-framed [] [] r s = ground arith
compare-framed [] (zero ∷ b) r s = ground arith
compare-framed [] (suc y ∷ b) r s = ground arith
compare-framed (zero ∷ a) [] r s = ground arith
compare-framed (suc x ∷ a) [] r s = ground arith
compare-framed (zero ∷ a) (zero ∷ b) r s = compare-framed a b r s
compare-framed (zero ∷ a) (suc y ∷ b) r s = ground arith
compare-framed (suc x ∷ a) (zero ∷ b) r s = ground arith
compare-framed (suc x ∷ a) (suc y ∷ b) r s = ground (arith, compare-framed a b r s)

framed-AreBytes : (bs : Bytes) → AreBytes bs → AreBytes (framed bs [])
framed-AreBytes [] h = omega arith
framed-AreBytes (zero ∷ bs) h = (omega arith, (omega arith, framed-AreBytes bs h.1))
framed-AreBytes (suc b ∷ bs) h = (h.0, framed-AreBytes bs h.1)

encoded-AreBytes : (bs : Bytes) → AreBytes bs → AreBytes (encode_unsized_key_bytes bs [])
encoded-AreBytes bs h =
    subst AreBytes (sym (encode-eq-framed bs [] []) ∙ append-nil _) (framed-AreBytes bs h)

-- Escaping and framing round-trips in front of any rest.
pub decode_unsized-encode_unsized :
    (bs rest : Bytes)
    → decode_unsized_key_bytes (encode_unsized_key_bytes bs [] ++ rest) ≡ some (bs, rest)
unfolding decode_unsized_key_bytes
decode_unsized-encode_unsized bs rest = rw (encode-eq-framed bs [] rest) (decode-framed bs [] rest)

-- The encoding of byte vectors is lawful for the order of byte strings: it round-trips in front of
-- any rest, and keeps the order in composite keys.
pub vec_key-IsLawful : (debug : Bytes → String) → IsLawful (vec_key debug) compare_bytes AreBytes
unfolding vec_key
vec_key-IsLawful debug = record {
  round_trip = λ a r h. decode_unsized-encode_unsized a r;
  order =
      λ a b r s h k. rw (encode-eq-framed a [] r, encode-eq-framed b [] s) (compare-framed a b r s);
  sized = λ a n h e. cc;
  bytes = λ a h. encoded-AreBytes a h;
  cmp_refl = compare_bytes_refl;
  eq_of_cmp = eq_of_compare_bytes;
  beq_iff = =ᵇ_iff;
}

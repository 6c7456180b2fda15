-- ===== src/Redb/Names.antt =====
-- The names of the tables are different for different stores.
use collette.Prelude.{
  ◌+◌, ◌*◌, length, length-append, ℕ, ◌≡◌, ◌≢◌, refl, sym, ap, ◌∙◌, ◌/◌, ◌%◌, [], ◌∷◌, ◌++◌, map,
  arith, append_assoc, true, false, ◌&&◌, Bool-cases, inl, inr, append-nil,
}
use collette.Bytes.{Bytes, ◌=ᵇ◌}
use collette.Bytes.Order.{=ᵇ_iff}
use collette.Store.{Name}
use collette.Store.Put.{=ᵇ_ne}
use collette.Redb.{hex_digit, push_hex, table_name}

true_ne_false : true ≢ false
true_ne_false e = cc

hex : Bytes → Bytes
hex [] = []
hex (b ∷ bs) = hex_digit (b / 16) ∷ hex_digit (b % 16) ∷ hex bs

push_hex-hex : (out bs : Bytes) → push_hex out bs ≡ out ++ hex bs
unfolding push_hex hex
push_hex-hex out [] = sym (append-nil out)
push_hex-hex out (b ∷ bs) =
    push_hex-hex (out ++ hex_digit (b / 16) ∷ hex_digit (b % 16) ∷ []) bs
    ∙ append_assoc out (hex_digit (b / 16) ∷ hex_digit (b % 16) ∷ []) (hex bs)

table_name-hex : (n s : Name) → table_name n s ≡ hex n ++ 0x3a ∷ hex s
unfolding table_name
table_name-hex n s =
    push_hex-hex (push_hex [] n ++ 0x3a ∷ []) s
    ∙ ap (λ (x : Bytes). (x ++ 0x3a ∷ []) ++ hex s) (push_hex-hex [] n)
    ∙ append_assoc (hex n) (0x3a ∷ []) (hex s)

hex_digit-ne-colon : (d : ℕ) → hex_digit d ≢ 0x3a
unfolding hex_digit
hex_digit-ne-colon d e = ground arith

hex_digit_injective : (c d : ℕ) → hex_digit c ≡ hex_digit d → c ≡ d
unfolding hex_digit
hex_digit_injective c d e = ground arith

byte_of_digits : (a b : ℕ) → a / 16 ≡ b / 16 → a % 16 ≡ b % 16 → a ≡ b
byte_of_digits a b h l = omega arith

-- Two digits and a rest.
head_digits :
    (a b : ℕ) (r s : Bytes)
    → hex_digit (a / 16) ∷ hex_digit (a % 16) ∷ r ≡ hex_digit (b / 16) ∷ hex_digit (b % 16) ∷ s
    → (a ≡ b) × (r ≡ s)
head_digits a b r s e =
    let h = hex_digit_injective (a / 16) (b / 16) (cc) in
    let l = hex_digit_injective (a % 16) (b % 16) (cc) in (byte_of_digits a b h l, cc)

hex_injective : (a b : Bytes) → hex a ≡ hex b → a ≡ b
unfolding hex
hex_injective [] [] e = refl
hex_injective [] (y ∷ b) e = cc
hex_injective (x ∷ a) [] e = cc
hex_injective (x ∷ a) (y ∷ b) e =
    let (p, q) = head_digits x y (hex a) (hex b) e in let r = hex_injective a b q in cc

colon_injective :
    (a b : Name) (s t : Bytes) → hex a ++ 0x3a ∷ s ≡ hex b ++ 0x3a ∷ t → (a ≡ b) × (s ≡ t)
unfolding hex
colon_injective [] [] s t e = (refl, cc)
colon_injective [] (y ∷ b) s t e =
    absurd (hex_digit-ne-colon (y / 16) (let q : 0x3a ≡ hex_digit (y / 16) = cc in sym q))
colon_injective (x ∷ a) [] s t e = absurd (hex_digit-ne-colon (x / 16) (cc))
colon_injective (x ∷ a) (y ∷ b) s t e =
    let (p, q) = head_digits x y (hex a ++ 0x3a ∷ s) (hex b ++ 0x3a ∷ t) e in
    let (r, u) = colon_injective a b s t q in (cc, u)

-- Stores that differ in the namespace or in the name have tables of different names.
pub table_name_injective : (m n s t : Name) → table_name m s ≡ table_name n t → (m ≡ n) × (s ≡ t)
table_name_injective m n s t e =
    let (p, q) =
      colon_injective m n (hex s) (hex t) (sym (table_name-hex m s) ∙ e ∙ table_name-hex n t) in
    (p, hex_injective s t q)

-- In one namespace, as a test.
pub table_name-eq_in_namespace : (n s t : Name) → (table_name n s =ᵇ table_name n t) ≡ (s =ᵇ t)
table_name-eq_in_namespace n s t = elim (Bool-cases (s =ᵇ t)) [
  | inl e ↦ rw e ((=ᵇ_iff _ _).1 (ap (table_name n) ((=ᵇ_iff s t).0 e)))
  | inr e ↦ rw e (
      =ᵇ_ne (table_name n s) (table_name n t) λ h.
        let q = (table_name_injective n n s t h).1 in true_ne_false (sym ((=ᵇ_iff s t).1 q) ∙ e))
]

pub table_name-ne : (m n s t : Name) → m ≢ n → table_name m s ≢ table_name n t
table_name-ne m n s t h e = h (table_name_injective m n s t e).0

-- Two stores have tables of the same name exactly if their namespaces and their names are the
-- same.
pub table_name-eq_test :
    (m n s t : Name) → (table_name m s =ᵇ table_name n t) ≡ ((m =ᵇ n) && (s =ᵇ t))
table_name-eq_test m n s t = elim (Bool-cases (m =ᵇ n)) [
  | inl e ↦ rw (e, (=ᵇ_iff m n).0 e) (table_name-eq_in_namespace n s t)
  | inr e ↦ rw e (
      =ᵇ_ne (table_name m s) (table_name n t)
        λ h. true_ne_false (sym ((=ᵇ_iff m n).1 (table_name_injective m n s t h).0) ∙ e))
]

length-push_hex : (out bs : Bytes) → length (push_hex out bs) ≡ length out + length bs * 2
unfolding push_hex
length-push_hex out [] = omega arith
length-push_hex out (b ∷ bs) =
    let two = hex_digit (b / 16) ∷ hex_digit (b % 16) ∷ [] in
    omega (arith, length-push_hex (out ++ two) bs, length-append out two)

-- The name of a table is as long as the capacity that the code reserves for it: twice the length
-- of the namespace, one, and twice the length of the store's name.
pub length-table_name : (n s : Name) → length (table_name n s) ≡ length n * 2 + 1 + length s * 2
unfolding table_name
length-table_name n s = omega (
  arith,
  length-push_hex (push_hex [] n ++ 0x3a ∷ []) s,
  length-append (push_hex [] n) (0x3a ∷ []),
  length-push_hex [] n,
)

-- The digits are the characters of `HEX`, "0123456789abcdef".
hex_digits :
    map hex_digit (0 ∷ 1 ∷ 2 ∷ 3 ∷ 4 ∷ 5 ∷ 6 ∷ 7 ∷ 8 ∷ 9 ∷ 10 ∷ 11 ∷ 12 ∷ 13 ∷ 14 ∷ 15 ∷ [])
    ≡ b'0' ∷ b'1' ∷ b'2' ∷ b'3' ∷ b'4' ∷ b'5' ∷ b'6' ∷ b'7' ∷ b'8' ∷ b'9' ∷ b'a' ∷ b'b' ∷ b'c'
      ∷ b'd' ∷ b'e' ∷ b'f' ∷ []
unfolding hex_digit
hex_digits = refl

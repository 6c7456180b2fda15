-- ===== src/Examples/Keys.antt =====
-- The encodings of key.rs, macros.rs and prefix.rs at concrete keys.
use collette.Prelude.{
  ℕ, ◌^◌, ◌<◌, ◌≡◌, refl, ◌↔◌, compare, Bool, true, false, ltb, [], ◌∷◌, String, arith,
  if◌then◌else◌,
}
use collette.Bytes.{Bytes}
use collette.Range.{excluded}
use collette.Prefix.{prefix_end, prefix_end_loop}
use collette.Key.{Key, IsLawful}
use collette.Key.Unsigned.{unsigned_key, to_be_bytes, unsigned_key-IsLawful}
use collette.Key.Signed.{
  negsuc, signed_key, encode_signed, sign_bit, as_unsigned, compare_int, FitsSigned,
  signed_key-IsLawful,
}
use collette.Key.Enum.{enum_key, IsListed, enum_key-IsLawful}
use collette.Key.Vector.{encode_unsized_key_bytes}
use collette.Key.Text.{str_key, compare_ended, LacksEnd, str_key-IsLawful}

abbrev pub no_debug : {A : Type 0} → A → String
no_debug _ = ""

-- 0x01020304 as `u32`, and -2 as `i16`
encode_u32 : to_be_bytes 4 16909060 ≡ 1 ∷ 2 ∷ 3 ∷ 4 ∷ []
unfolding to_be_bytes
encode_u32 = refl

encode_i16 : encode_signed 2 (negsuc 1) ≡ 0x7f ∷ 0xfe ∷ []
unfolding encode_signed sign_bit as_unsigned to_be_bytes
encode_i16 = refl

encode_zero_byte : encode_unsized_key_bytes (7 ∷ 0 ∷ []) [] ≡ 7 ∷ 0 ∷ 0xff ∷ 0 ∷ 0 ∷ []
unfolding encode_unsized_key_bytes
encode_zero_byte = refl

prefix_end_carry : prefix_end (1 ∷ 0xff ∷ []) ≡ excluded (2 ∷ [])
unfolding prefix_end prefix_end_loop
prefix_end_carry = refl

unsigned_key-IsLawful_example : IsLawful (unsigned_key 4 no_debug) compare (λ v. v < 256 ^ 4)
unsigned_key-IsLawful_example = unsigned_key-IsLawful 4 no_debug

signed_key-IsLawful_example : IsLawful (signed_key 2 no_debug) compare_int (FitsSigned 2)
signed_key-IsLawful_example = signed_key-IsLawful 1 no_debug

-- `u16` keys
abbrev pub short_key : Key ℕ
short_key = unsigned_key 2 no_debug

abbrev pub IsShort : ℕ → Type 0
IsShort v = v < 256 ^ 2

pub short_key-IsLawful : IsLawful short_key compare IsShort
short_key-IsLawful = unsigned_key-IsLawful 2 no_debug

-- Text of ASCII characters.
abbrev ascii : Bytes → Bool
ascii [] = true
ascii (b ∷ bs) = if ltb b 128 then ascii bs else false

ascii-LacksEnd : (s : Bytes) → ascii s ≡ true → LacksEnd s
ascii-LacksEnd [] h = tt
ascii-LacksEnd (b ∷ s) h = ground (arith, ascii-LacksEnd s)

str_key-IsLawful_example : IsLawful (str_key ascii no_debug) compare_ended (λ s. ascii s ≡ true)
str_key-IsLawful_example = str_key-IsLawful ascii ascii-LacksEnd no_debug

-- `Status as u8 { Queued => 0, Done => 1 }`
data Status : Type 0 where
  queued done : Status

abbrev value : Status → ℕ
value queued = 0
value done = 1

abbrev same : Status → Status → Bool
same queued queued = true
same done done = true
same _ _ = false

value_injective : (s t : Status) → value s ≡ value t → s ≡ t
value_injective queued queued e = refl
value_injective queued done e = absurd (omega arith)
value_injective done queued e = absurd (omega arith)
value_injective done done e = refl

same_iff : (s t : Status) → (same s t ≡ true) ↔ (s ≡ t)
same_iff queued queued = (λ e. refl, λ e. refl)
same_iff queued done = (λ e. cc, λ e. cc)
same_iff done queued = (λ e. cc, λ e. cc)
same_iff done done = (λ e. refl, λ e. refl)

enum_key-IsLawful_example :
    IsLawful
      (enum_key value 1 (queued ∷ done ∷ []) same no_debug)
      (λ s t. compare (value s) (value t))
      (λ t. IsListed value (queued ∷ done ∷ []) t × (value t < 256 ^ 1))
enum_key-IsLawful_example =
    enum_key-IsLawful value 1 (queued ∷ done ∷ []) same no_debug value_injective same_iff

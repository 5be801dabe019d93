-- ===== src/Base/Hex.antt =====
-- Package `encoding/hex`: bytes as pairs of hexadecimal digits.
use Prim.Native.Char.{Char, code}
use jacu_harness.Base.{
  ℕ, suc, ◌+◌, ◌-◌, ◌*◌, ◌/◌, ◌%◌, ◌<◌, ◌≡◌, refl, String, ◌&&◌, List, [], ◌∷◌, Option, none, some,
  arith, leb, if◌then◌else◌, All, length, zero, ap, ◌∙◌,
}

abbrev digits : List Char
digits =
    "0" ∷ "1" ∷ "2" ∷ "3" ∷ "4" ∷ "5" ∷ "6" ∷ "7" ∷ "8" ∷ "9" ∷ "a" ∷ "b" ∷ "c" ∷ "d" ∷ "e" ∷ "f"
    ∷ []

nth : List Char → ℕ → Char
nth [] n = "0"
nth (c ∷ cs) zero = c
nth (c ∷ cs) (suc n) = nth cs n

hex_digit : ℕ → Char
unfolding nth
hex_digit n = nth digits n

-- The value of a digit, in either case.
from_hex_char : ℕ → Option ℕ
from_hex_char c =
    if leb b'0' c && leb c b'9'
    then some (c - b'0')
    else if leb b'a' c && leb c b'f'
    then some (c - b'a' + 10)
    else if leb b'A' c && leb c b'F'
    then some (c - b'A' + 10)
    else none

-- `hex.EncodeToString`
unfoldable pub encode_hex : List ℕ → String
unfolding hex_digit
encode_hex [] = ""
encode_hex (b ∷ bs) =
    String.◌∷◌ (hex_digit (b / 16)) (String.◌∷◌ (hex_digit (b % 16)) (encode_hex bs))

-- a byte in front of what follows
abbrev byte_before : Option ℕ → Option ℕ → Option (List ℕ) → Option (List ℕ)
byte_before (some hi) (some lo) (some rest) = some ((hi * 16 + lo) ∷ rest)
byte_before hi lo rest = none

-- `hex.DecodeString`
unfoldable pub decode_hex : String → Option (List ℕ)
unfolding from_hex_char
decode_hex String.[] = some []
decode_hex (String.◌∷◌ c String.[]) = none
decode_hex (String.◌∷◌ c (String.◌∷◌ d s)) =
    byte_before (from_hex_char (code c)) (from_hex_char (code d)) (decode_hex s)

-- The digits have the values from `k` on.
abbrev Count : ℕ → List Char → Type 0
Count k [] = Unit
Count k (c ∷ cs) = (from_hex_char (code c) ≡ some k) × Count (suc k) cs

digits-Count : Count 0 digits
unfolding from_hex_char
digits-Count = ground arith

nth_value :
    (k n : ℕ) (cs : List Char)
    → Count k cs
    → n < length cs
    → from_hex_char (code (nth cs n)) ≡ some (k + n)
unfolding nth
nth_value k n [] a h = elim h [ ]
nth_value k zero (c ∷ cs) a h = a.0 ∙ ap some (omega arith)
nth_value k (suc n) (c ∷ cs) a h = nth_value (suc k) n cs a.1 (omega arith) ∙ ap some (omega arith)

digit_value : (n : ℕ) → n < 16 → from_hex_char (code (hex_digit n)) ≡ some n
unfolding hex_digit
digit_value n h = nth_value 0 n digits digits-Count h ∙ ap some (omega arith)

-- Bytes that are encoded decode to themselves.
pub decode-encode_hex : (bs : List ℕ) → All (λ b. b < 256) bs → decode_hex (encode_hex bs) ≡ some bs
unfolding decode_hex encode_hex
decode-encode_hex [] a = refl
decode-encode_hex (b ∷ bs) a =
    let split : b / 16 * 16 + b % 16 ≡ b = omega arith in
    rw
      (
        digit_value (b / 16) (omega arith),
        digit_value (b % 16) (omega arith),
        decode-encode_hex bs a.1,
      )
      (rw split refl)

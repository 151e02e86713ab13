-- ===== src/Audit/Hex.antt =====
-- encoding/hex as internal/audit uses it: EncodeToString and DecodeString.
use yvonne.Base.{
  ℕ, ◌+◌, ◌-◌, ◌*◌, ◌/◌, ◌%◌, ◌<◌, Str, [], ◌∷◌, ◌&&◌, Option, none, some, leb, ltb, All, ◌≡◌, refl,
  arith, if◌then◌else◌,
}

abbrev hex_char : ℕ → ℕ
hex_char n = if ltb n 10 then b'0' + n else b'a' + n - 10

abbrev from_hex_char : ℕ → Option ℕ
from_hex_char c =
    if leb b'0' c && leb c b'9'
    then some (c - b'0')
    else if leb b'a' c && leb c b'f'
    then some (c - b'a' + 10)
    else if leb b'A' c && leb c b'F'
    then some (c - b'A' + 10)
    else none

unfoldable pub hex_encode : Str → Str
hex_encode [] = []
hex_encode (b ∷ s) = hex_char (b / 16) ∷ hex_char (b % 16) ∷ hex_encode s

abbrev byte_of : Option ℕ → Option ℕ → Option Str → Option Str
byte_of (some high) (some low) (some rest) = some ((high * 16 + low) ∷ rest)
byte_of _ _ _ = none

unfoldable pub hex_decode : Str → Option Str
hex_decode [] = some []
hex_decode (c ∷ []) = none
hex_decode (c ∷ d ∷ s) = byte_of (from_hex_char c) (from_hex_char d) (hex_decode s)

from_hex_char-hex_char : (n : ℕ) → n < 16 → from_hex_char (hex_char n) ≡ some n
from_hex_char-hex_char n h = ground arith

abbrev pub IsBytes : Str → Type 0
IsBytes s = All (λ b. b < 256) s

pub hex_decode-hex_encode : (s : Str) → IsBytes s → hex_decode (hex_encode s) ≡ some s
unfolding hex_decode hex_encode
hex_decode-hex_encode [] h = refl
hex_decode-hex_encode (b ∷ s) h =
    let high = from_hex_char-hex_char (b / 16) (omega (arith, h.0)) in
    let low = from_hex_char-hex_char (b % 16) (omega arith) in
    let whole : b / 16 * 16 + b % 16 ≡ b = omega arith in
    rw (high, low, hex_decode-hex_encode s h.1, whole) refl

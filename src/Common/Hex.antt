-- ===== src/Common/Hex.antt =====
-- `bytes.hex` and `bytes.fromhex`.
use junca_social_ecosystem_c.Common.Prelude.{
  ℕ, ◌+◌, ◌-◌, ◌*◌, ◌/◌, ◌%◌, ◌<◌, ◌≡◌, refl, true, false, ◌&&◌, Option, none, some, [], ◌∷◌, arith,
  leb, if◌then◌else◌,
}
use junca_social_ecosystem_c.Common.Strings.{Text, Bytes, is_digit, is_lower_hex, is_hex, is_gap}
use junca_social_ecosystem_c.Common.Lists.{All, length, all_of}

hex_digit : ℕ → ℕ
hex_digit n = if leb n 9 then b'0' + n else b'a' + n - 10

-- `b.hex()`
unfoldable pub hex : Bytes → Text
unfolding hex_digit
hex [] = []
hex (b ∷ bs) = hex_digit (b / 16) ∷ hex_digit (b % 16) ∷ hex bs

digit_value : ℕ → ℕ
digit_value c =
    if is_digit c then c - b'0' else if is_lower_hex c then c - b'a' + 10 else c - b'A' + 10

cons_byte : ℕ → ℕ → Option Bytes → Option Bytes
unfolding digit_value
cons_byte c d none = none
cons_byte c d (some bytes) =
    if is_hex c && is_hex d then some ((digit_value c * 16 + digit_value d) ∷ bytes) else none

-- `bytes.fromhex(s)`; `none` stands for a `ValueError`.
unfoldable pub from_hex : Text → Option Bytes
unfolding cons_byte
from_hex [] = some []
from_hex (c ∷ []) = if is_gap c then some [] else none
from_hex (c ∷ d ∷ s) = elim (is_gap c) [
  | true ↦ from_hex (d ∷ s)
  | false ↦ cons_byte c d (from_hex s)
]

is_gap-hex_digit : (n : ℕ) → n < 16 → is_gap (hex_digit n) ≡ false
unfolding hex_digit
is_gap-hex_digit n h = ground arith

is_hex-hex_digit : (n : ℕ) → n < 16 → is_hex (hex_digit n) ≡ true
unfolding hex_digit
is_hex-hex_digit n h = ground arith

digit_value-hex_digit : (n : ℕ) → n < 16 → digit_value (hex_digit n) ≡ n
unfolding digit_value hex_digit
digit_value-hex_digit n h = ground arith

abbrev pub IsByte : ℕ → Type 0
IsByte b = b < 256

byte_halves : (b : ℕ) → b / 16 * 16 + b % 16 ≡ b
byte_halves b = omega arith

-- Bytes are read back from their digits.
pub from_hex-hex : (bytes : Bytes) → All IsByte bytes → from_hex (hex bytes) ≡ some bytes
unfolding from_hex hex cons_byte
from_hex-hex [] h = refl
from_hex-hex (b ∷ bytes) h =
    let high : b / 16 < 16 = omega (arith, h.0) in
    let low : b % 16 < 16 = omega arith in
    rw
      (
        from_hex,
        is_gap-hex_digit (b / 16) high,
        from_hex-hex bytes h.1,
        is_hex-hex_digit (b / 16) high,
        is_hex-hex_digit (b % 16) low,
        digit_value-hex_digit (b / 16) high,
        digit_value-hex_digit (b % 16) low,
        byte_halves b,
      )
      refl

pub length-hex : (bytes : Bytes) → length (hex bytes) ≡ length bytes * 2
unfolding hex
length-hex [] = refl
length-hex (b ∷ bytes) = omega (arith, length-hex bytes)

lower_hex_digit : (n : ℕ) → n < 16 → is_lower_hex (hex_digit n) ≡ true
unfolding hex_digit
lower_hex_digit n h = ground arith

pub all_of-hex : (bytes : Bytes) → All IsByte bytes → all_of is_lower_hex (hex bytes) ≡ true
unfolding hex
all_of-hex [] h = refl
all_of-hex (b ∷ bytes) h =
    rw
      (
        lower_hex_digit (b / 16) (omega (arith, h.0)),
        lower_hex_digit (b % 16) (omega arith),
        all_of-hex bytes h.1,
      )
      refl

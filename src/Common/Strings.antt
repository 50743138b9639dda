-- ===== src/Common/Strings.antt =====
-- Python's `str` as its code points; `lower`, `startswith`, `strip`, `isspace`, `int(s, 16)` and
-- hexadecimal tests, on ASCII text.
use Prim.Native.String.{String}
use Prim.Native.Char.{code}
use junca_social_ecosystem_c.Common.Prelude.{
  ℕ, zero, suc, ◌++◌, ◌+◌, ◌/◌, ◌%◌, ◌≡◌, refl, Bool, true, false, ◌&&◌, ◌||◌, List, [], ◌∷◌,
  reverse, reverse_aux, sym, arith, leb, ◌==◌, if◌then◌else◌, ap₂, ==_iff, ◌↔◌,
}
use junca_social_ecosystem_c.Common.Equality.{◌=?◌, list_beq_iff, nat_eq, list_eq}
use junca_social_ecosystem_c.Common.Lists.{length, drop}

abbrev pub Text : Type 0
Text = List ℕ

pub text_iff : (s t : Text) → ((s =? t) ≡ true) ↔ (s ≡ t)
text_iff = list_beq_iff ◌==◌ ==_iff

abbrev pub Bytes : Type 0
Bytes = List ℕ

-- A literal's code points.
abbrev pub codes : String → Text
codes String.[] = []
codes (String.◌∷◌ c s) = code c ∷ codes s

abbrev pub is_empty {ℓ} : {A : Type ℓ} → List A → Bool
is_empty [] = true
is_empty (x ∷ xs) = false

lower_char : ℕ → ℕ
lower_char c = if leb b'A' c && leb c b'Z' then c + 32 else c

-- `s.lower()`
unfoldable pub lower : Text → Text
unfolding lower_char
lower [] = []
lower (c ∷ s) = lower_char c ∷ lower s

lower_char_idem : (c : ℕ) → lower_char (lower_char c) ≡ lower_char c
unfolding lower_char
lower_char_idem c = ground arith

pub lower_idem : (s : Text) → lower (lower s) ≡ lower s
unfolding lower
lower_idem [] = refl
lower_idem (c ∷ s) = ap₂ ◌∷◌ (lower_char_idem c) (lower_idem s)

pub length-lower : (s : Text) → length (lower s) ≡ length s
unfolding lower
length-lower [] = refl
length-lower (c ∷ s) = omega (arith, length-lower s)

-- `s.startswith(prefix)`
unfoldable pub starts_with : Text → Text → Bool
starts_with s [] = true
starts_with [] (p ∷ ps) = false
starts_with (c ∷ s) (p ∷ ps) = c == p && starts_with s ps

-- `c.isspace()`
abbrev pub is_space : ℕ → Bool
is_space c = (leb 9 c && leb c 13) || (leb 28 c && leb c 32)

drop_spaces : Text → Text
drop_spaces [] = []
drop_spaces (c ∷ s) = if is_space c then drop_spaces s else c ∷ s

-- `s.strip()`
unfoldable pub strip : Text → Text
unfolding drop_spaces
strip s = reverse (drop_spaces (reverse (drop_spaces s)))

-- A space of ASCII for `int` and `fromhex`.
abbrev pub is_gap : ℕ → Bool
is_gap c = (leb 9 c && leb c 13) || c == 32

drop_gaps : Text → Text
drop_gaps [] = []
drop_gaps (c ∷ s) = if is_gap c then drop_gaps s else c ∷ s

-- What `int(s, 16)` does with the spaces at both ends.
trim : Text → Text
unfolding drop_gaps
trim s = reverse (drop_gaps (reverse (drop_gaps s)))

abbrev pub is_digit : ℕ → Bool
is_digit c = leb b'0' c && leb c b'9'

abbrev pub is_lower_hex : ℕ → Bool
is_lower_hex c = is_digit c || (leb b'a' c && leb c b'f')

abbrev pub is_hex : ℕ → Bool
is_hex c = is_lower_hex c || (leb b'A' c && leb c b'F')

drop_sign : Text → Text
drop_sign [] = []
drop_sign (c ∷ s) = if c == b'+' || c == b'-' then s else c ∷ s

drop_underscore : Text → Text
drop_underscore [] = []
drop_underscore (c ∷ s) = if c == b'_' then s else c ∷ s

-- The optional `0x`, and one underscore behind it.
drop_prefix : Text → Text
drop_prefix (z ∷ x ∷ s) =
    if z == b'0' && (x == b'x' || x == b'X') then drop_underscore s else z ∷ x ∷ s
drop_prefix s = s

-- Digits with single underscores between them; the flag tells whether a digit stands before.
hex_digits : Bool → Text → Bool
hex_digits after_digit [] = after_digit
hex_digits after_digit (c ∷ s) = (is_hex c || (c == b'_' && after_digit)) && hex_digits (is_hex c) s

-- `int(s, 16)` returns, and raises no `ValueError`.
unfoldable pub parses_hex : Text → Bool
unfolding drop_prefix drop_underscore drop_sign hex_digits trim
parses_hex s = hex_digits false (drop_prefix (drop_sign (trim s)))

-- A number of n digits or fewer, in front of a text.
decimal_onto : ℕ → ℕ → Text → Text
decimal_onto zero n rest = rest
decimal_onto (suc fuel) n rest =
    let digits = (b'0' + n % 10) ∷ rest in
    let more = decimal_onto fuel (n / 10) digits in if leb n 9 then digits else more

-- `str(n)`; a number has at most as many digits as itself and one.
unfoldable pub decimal : ℕ → Text
unfolding decimal_onto
decimal n = decimal_onto (suc n) n []

-- `separator.join(texts)`
unfoldable pub join : Text → List Text → Text
join separator [] = []
join separator (s ∷ []) = s
join separator (s ∷ t ∷ rest) = s ++ separator ++ join separator (t ∷ rest)

-- Lowering a text changes none of the tests that `int(s, 16)` makes.
pub starts_with-lower :
    (s : Text) → starts_with s (codes "0x") ≡ true → starts_with (lower s) (codes "0x") ≡ true
unfolding lower starts_with lower_char
starts_with-lower [] h = cc
starts_with-lower (z ∷ []) h = ground arith
starts_with-lower (z ∷ x ∷ s) h = ground arith

pub drop-lower : (s : Text) → drop 2 (lower s) ≡ lower (drop 2 s)
unfolding lower
drop-lower [] = refl
drop-lower (z ∷ []) = refl
drop-lower (z ∷ x ∷ s) = refl

lower-reverse_aux : (s t : Text) → lower (reverse_aux s t) ≡ reverse_aux (lower s) (lower t)
unfolding lower
lower-reverse_aux [] t = refl
lower-reverse_aux (c ∷ s) t = lower-reverse_aux s (c ∷ t)

drop_gaps-lower : (s : Text) → drop_gaps (lower s) ≡ lower (drop_gaps s)
unfolding lower drop_gaps lower_char
drop_gaps-lower [] = refl
drop_gaps-lower (c ∷ s) = ground (arith, drop_gaps-lower s)

trim-lower : (s : Text) → trim (lower s) ≡ lower (trim s)
unfolding trim lower
trim-lower s =
    rw
      (
        drop_gaps-lower s,
        ← lower-reverse_aux (drop_gaps s) [],
        drop_gaps-lower (reverse (drop_gaps s)),
      )
      (sym (lower-reverse_aux (drop_gaps (reverse (drop_gaps s))) []))

drop_sign-lower : (s : Text) → drop_sign (lower s) ≡ lower (drop_sign s)
unfolding lower drop_sign lower_char
drop_sign-lower [] = refl
drop_sign-lower (c ∷ s) = ground arith

drop_underscore-lower : (s : Text) → drop_underscore (lower s) ≡ lower (drop_underscore s)
unfolding lower drop_underscore lower_char
drop_underscore-lower [] = refl
drop_underscore-lower (c ∷ s) = ground arith

drop_prefix-lower : (s : Text) → drop_prefix (lower s) ≡ lower (drop_prefix s)
unfolding lower drop_prefix lower_char
drop_prefix-lower [] = refl
drop_prefix-lower (z ∷ []) = refl
drop_prefix-lower (z ∷ x ∷ s) = ground (arith, drop_underscore-lower s)

is_hex-lower_char : (c : ℕ) → is_hex (lower_char c) ≡ is_hex c
unfolding lower_char
is_hex-lower_char c = ground arith

underscore-lower_char : (c : ℕ) → (lower_char c == b'_') ≡ (c == b'_')
unfolding lower_char
underscore-lower_char c = ground arith

hex_digits-lower : (after : Bool) (s : Text) → hex_digits after (lower s) ≡ hex_digits after s
unfolding lower hex_digits lower_char
hex_digits-lower after [] = refl
hex_digits-lower after (c ∷ s) =
    rw (is_hex-lower_char c, underscore-lower_char c, hex_digits-lower (is_hex c) s) refl

pub parses_hex-lower : (s : Text) → parses_hex (lower s) ≡ parses_hex s
unfolding parses_hex
parses_hex-lower s =
    rw (trim-lower s, drop_sign-lower (trim s), drop_prefix-lower (drop_sign (trim s)))
      (hex_digits-lower false (drop_prefix (drop_sign (trim s))))

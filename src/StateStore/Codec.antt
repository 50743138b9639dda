-- ===== src/StateStore/Codec.antt =====
-- A concrete encoder, reader and digest in place of `json` and `hashlib`, for the tests: a tag and
-- its content, a text behind its length, and one digest for all.
use junca_social_ecosystem_c.Common.{
  ℕ, zero, suc, ◌+◌, ◌≤◌, ◌≡◌, refl, ap, arith, true, false, Option, none, some, [], ◌∷◌, ◌++◌,
  ◌==◌, length, take, drop, length-append, Text, Bytes, codes, lower, starts_with, parses_hex, Json,
  Items, Fields, null, boolean, text, number, array, object, nil, cons, end, field, Platform,
}
use junca_social_ecosystem_c.StateStore.Types.{check_hash, Loads}
use junca_social_ecosystem_c.StateStore.Accounts.{Documented}

mutual
  -- The text of a value, in front of what follows.
  value_onto : Json → Bytes → Bytes
  value_onto null rest = 0 ∷ rest
  value_onto (boolean true) rest = 1 ∷ rest
  value_onto (boolean false) rest = 2 ∷ rest
  value_onto (text t) rest = 3 ∷ length t ∷ (t ++ rest)
  value_onto (number n) rest = 4 ∷ n ∷ rest
  value_onto (object fields) rest = 5 ∷ fields_onto fields rest
  value_onto (array items) rest = 91 ∷ items_onto items rest

  items_onto : Items → Bytes → Bytes
  items_onto nil rest = 93 ∷ rest
  items_onto (cons j items) rest = 6 ∷ value_onto j (items_onto items rest)

  fields_onto : Fields → Bytes → Bytes
  fields_onto end rest = 93 ∷ rest
  fields_onto (field key j fields) rest =
      6 ∷ length key ∷ (key ++ value_onto j (fields_onto fields rest))

abbrev Read : Type 0 → Type 0
Read A = Option (A × Bytes)

abbrev and_then {ℓ} : {A : Type 0} {B : Type ℓ} → Read A → (A → Bytes → Option B) → Option B
and_then none next = none
and_then (some (a, rest)) next = next a rest

abbrev read_text : Bytes → Read Text
read_text [] = none
read_text (n ∷ rest) = some (take n rest, drop n rest)

abbrev read_number : Bytes → Read ℕ
read_number [] = none
read_number (n ∷ rest) = some (n, rest)

mutual
  read_value : ℕ → Bytes → Read Json
  read_value zero s = none
  read_value (suc fuel) [] = none
  read_value (suc fuel) (zero ∷ rest) = some (null, rest)
  read_value (suc fuel) ((suc zero) ∷ rest) = some (boolean true, rest)
  read_value (suc fuel) ((suc (suc zero)) ∷ rest) = some (boolean false, rest)
  read_value (suc fuel) ((suc (suc (suc zero))) ∷ rest) =
      and_then (read_text rest) λ t after. some (text t, after)
  read_value (suc fuel) ((suc (suc (suc (suc zero)))) ∷ rest) =
      and_then (read_number rest) λ n after. some (number n, after)
  read_value (suc fuel) ((suc (suc (suc (suc (suc zero))))) ∷ rest) =
      and_then (read_fields fuel rest) λ fields after. some (object fields, after)
  read_value (suc fuel) ((suc (suc (suc (suc (suc (suc n)))))) ∷ rest) =
      and_then (read_items fuel rest) λ items after. some (array items, after)

  read_items : ℕ → Bytes → Read Items
  read_items zero s = none
  read_items (suc fuel) [] = none
  read_items (suc fuel) (tag ∷ rest) = elim (tag == 93) [
    | true ↦ some (nil, rest)
    | false ↦
        and_then (read_value fuel rest)
          λ j after. and_then (read_items fuel after) λ items last. some (cons j items, last)
  ]

  read_fields : ℕ → Bytes → Read Fields
  read_fields zero s = none
  read_fields (suc fuel) [] = none
  read_fields (suc fuel) (tag ∷ rest) = elim (tag == 93) [
    | true ↦ some (end, rest)
    | false ↦ and_then (read_text rest) λ key next.
        and_then (read_value fuel next) λ j after.
          and_then (read_fields fuel after) λ fields last. some (field key j fields, last)
  ]

mutual
  value_size : Json → ℕ
  value_size null = 1
  value_size (boolean b) = 1
  value_size (text t) = 1
  value_size (number n) = 1
  value_size (object fields) = suc (fields_size fields)
  value_size (array items) = suc (items_size items)

  items_size : Items → ℕ
  items_size nil = 1
  items_size (cons j items) = suc (value_size j + items_size items)

  fields_size : Fields → ℕ
  fields_size end = 1
  fields_size (field key j fields) = suc (value_size j + fields_size fields)

mutual
  unfolding value_onto items_onto fields_onto value_size items_size fields_size

  value_size-le :
      (j : Json) (rest : Bytes) → value_size j + length rest ≤ length (value_onto j rest)
  value_size-le null rest = omega arith
  value_size-le (boolean true) rest = omega arith
  value_size-le (boolean false) rest = omega arith
  value_size-le (text t) rest = omega (arith, length-append t rest)
  value_size-le (number n) rest = omega arith
  value_size-le (object fields) rest = omega (arith, fields_size-le fields rest)
  value_size-le (array items) rest = omega (arith, items_size-le items rest)

  items_size-le :
      (items : Items) (rest : Bytes)
      → items_size items + length rest ≤ length (items_onto items rest)
  items_size-le nil rest = omega arith
  items_size-le (cons j items) rest =
      omega (arith, value_size-le j (items_onto items rest), items_size-le items rest)

  fields_size-le :
      (fields : Fields) (rest : Bytes)
      → fields_size fields + length rest ≤ length (fields_onto fields rest)
  fields_size-le end rest = omega arith
  fields_size-le (field key j fields) rest = omega (
    arith,
    value_size-le j (fields_onto fields rest),
    fields_size-le fields rest,
    length-append key (value_onto j (fields_onto fields rest)),
  )

take_text : (t rest : Text) → take (length t) (t ++ rest) ≡ t
take_text [] rest = refl
take_text (c ∷ t) rest = ap (λ (s : Text). c ∷ s) (take_text t rest)

drop_text : (t rest : Text) → drop (length t) (t ++ rest) ≡ rest
drop_text [] rest = refl
drop_text (c ∷ t) rest = drop_text t rest

mutual
  unfolding value_onto items_onto fields_onto value_size items_size fields_size read_value
      read_items read_fields

  read_value-onto :
      (j : Json) (fuel : ℕ) (rest : Bytes)
      → value_size j ≤ fuel
      → read_value fuel (value_onto j rest) ≡ some (j, rest)
  read_value-onto null zero rest h = absurd (omega arith)
  read_value-onto null (suc fuel) rest h = refl
  read_value-onto (boolean b) zero rest h = absurd (omega arith)
  read_value-onto (boolean true) (suc fuel) rest h = refl
  read_value-onto (boolean false) (suc fuel) rest h = refl
  read_value-onto (text t) zero rest h = absurd (omega arith)
  read_value-onto (text t) (suc fuel) rest h = rw (take_text t rest, drop_text t rest) refl
  read_value-onto (number n) zero rest h = absurd (omega arith)
  read_value-onto (number n) (suc fuel) rest h = refl
  read_value-onto (object fields) zero rest h = absurd (omega arith)
  read_value-onto (object fields) (suc fuel) rest h =
      rw (read_fields-onto fields fuel rest (omega arith)) refl
  read_value-onto (array items) zero rest h = absurd (omega arith)
  read_value-onto (array items) (suc fuel) rest h =
      rw (read_items-onto items fuel rest (omega arith)) refl

  read_items-onto :
      (items : Items) (fuel : ℕ) (rest : Bytes)
      → items_size items ≤ fuel
      → read_items fuel (items_onto items rest) ≡ some (items, rest)
  read_items-onto nil zero rest h = absurd (omega arith)
  read_items-onto nil (suc fuel) rest h = refl
  read_items-onto (cons j items) zero rest h = absurd (omega arith)
  read_items-onto (cons j items) (suc fuel) rest h =
      rw
        (
          read_value-onto j fuel (items_onto items rest) (omega arith),
          read_items-onto items fuel rest (omega arith),
        )
        refl

  read_fields-onto :
      (fields : Fields) (fuel : ℕ) (rest : Bytes)
      → fields_size fields ≤ fuel
      → read_fields fuel (fields_onto fields rest) ≡ some (fields, rest)
  read_fields-onto end zero rest h = absurd (omega arith)
  read_fields-onto end (suc fuel) rest h = refl
  read_fields-onto (field key j fields) zero rest h = absurd (omega arith)
  read_fields-onto (field key j fields) (suc fuel) rest h =
      rw
        (
          take_text key (value_onto j (fields_onto fields rest)),
          drop_text key (value_onto j (fields_onto fields rest)),
          read_value-onto j fuel (fields_onto fields rest) (omega arith),
          read_fields-onto fields fuel rest (omega arith),
        )
        refl

abbrev whole : Read Json → Option Json
whole none = none
whole (some (j, [])) = some j
whole (some (j, c ∷ rest)) = none

unfoldable pub codec_loads : Loads
unfolding read_value
codec_loads s = whole (read_value (length s) s)

unfoldable pub codec_dumps : Json → Bytes
unfolding value_onto
codec_dumps j = value_onto j []

abbrev pub some_digest : Text
some_digest = codes "00000000000000000000000000000000000000000000000000000000000000d5"

abbrev pub codec : Platform
codec = record { dumps = codec_dumps; sha256 = λ b. some_digest }

codec_reads : (j : Json) → codec_loads (codec_dumps j) ≡ some j
unfolding codec_loads codec_dumps
codec_reads j =
    rw (read_value-onto j (length (value_onto j [])) [] (omega (arith, value_size-le j []))) refl

pub codec-Documented : Documented codec codec_loads
unfolding codec_dumps value_onto items_onto check_hash starts_with parses_hex lower
codec-Documented = record {
  reads = λ j sorted. codec_reads j;
  empty_list = refl;
  formed = λ b. refl;
  lowered = λ b. refl;
}

-- ===== src/Common/Documents.antt =====
-- The dicts that `json.loads` returns: their names, what stands under a name, and of which kind it
-- is. Such a dict has a name once.
use junca_social_ecosystem_c.Common.Prelude.{
  ℕ, Bool, false, ◌&&◌, Option, none, some, List, [], ◌∷◌, ◌==◌, if◌then◌else◌,
}
use junca_social_ecosystem_c.Common.Equality.{◌=?◌, nat_eq, list_eq, mem}
use junca_social_ecosystem_c.Common.Lists.{all_of}
use junca_social_ecosystem_c.Common.Strings.{Text}
use junca_social_ecosystem_c.Common.Encoding.{
  Json, Items, Fields, boolean, text, number, array, end, field,
}

-- `raw[name]`
unfoldable pub find_field : Text → Fields → Option Json
find_field name end = none
find_field name (field key value rest) = if key =? name then some value else find_field name rest

unfoldable pub field_names : Fields → List Text
field_names end = []
field_names (field key value rest) = key ∷ field_names rest

-- `{key: value for key, value in raw.items() if key != name}`
unfoldable pub without_field : Text → Fields → Fields
without_field name end = end
without_field name (field key value rest) =
    let others = without_field name rest in if key =? name then others else field key value others

-- `set(raw) == set(names)`
abbrev pub has_exactly : List Text → Fields → Bool
has_exactly names raw =
    all_of (λ name. mem name names) (field_names raw)
    && all_of (λ name. mem name (field_names raw)) names

-- `value == expected`
abbrev pub is_text : Text → Option Json → Bool
is_text expected (some (text t)) = t =? expected
is_text expected other = false

-- `value == expected`; Python's `True` is 1 and `False` is 0.
abbrev pub is_number : ℕ → Option Json → Bool
is_number expected (some (number n)) = n == expected
is_number expected (some (boolean b)) = (if b then 1 else 0) == expected
is_number expected other = false

abbrev pub as_number : Option Json → Option ℕ
as_number (some (number n)) = some n
as_number other = none

abbrev pub as_text : Option Json → Option Text
as_text (some (text t)) = some t
as_text other = none

abbrev pub as_items : Option Json → Option Items
as_items (some (array items)) = some items
as_items other = none

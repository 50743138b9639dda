-- ===== src/Common/Encoding.antt =====
-- JSON values, as the code hands them to `json.dumps`, and what is not written in the
-- repository: the encoder and SHA-256.
use junca_social_ecosystem_c.Common.Prelude.{ℕ, Bool, List, [], ◌∷◌, ◌++◌}
use junca_social_ecosystem_c.Common.Strings.{Text, Bytes, codes}

mutual
  pub data Json : Type 0 where
    null : Json
    boolean : Bool → Json
    text : Text → Json
    number : ℕ → Json
    array : Items → Json
    object : Fields → Json

  pub data Items : Type 0 where
    nil : Items
    cons : Json → Items → Items

  pub data Fields : Type 0 where
    end : Fields
    field : Text → Json → Fields → Fields

abbrev pub to_items {ℓ} : {A : Type ℓ} → (A → Json) → List A → Items
to_items f [] = nil
to_items f (x ∷ xs) = cons (f x) (to_items f xs)

-- `json.dumps(value, sort_keys=True, separators=(",", ":")).encode("utf-8")` and
-- `hashlib.sha256(b).hexdigest()`. Fields of an object are written in the sorted order.
pub record Platform : Type 0 where
  pub dumps : Json → Bytes
  pub sha256 : Bytes → Text

-- The form in which the code writes a digest: `"0x" + sha256(tag + payload).hexdigest()`.
abbrev pub tagged_digest : Platform → Bytes → Bytes → Text
tagged_digest p tag payload = codes "0x" ++ p.sha256 (tag ++ payload)

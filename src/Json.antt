-- ===== src/Json.antt =====
-- JSON values as JavaScript objects, and canonicalize of packages/storage/src/canonical-json.ts. An
-- object is the list of its own fields in their order; a field with the value undefined, a key that
-- looks like an array index and a number that is not finite do not occur.
pub mod Codec
use airing_cal.Common.{
  ℕ, Bool, true, false, ◌&&◌, Option, none, some, List, [], ◌∷◌, Text, text_lt, sort, get,
  Text-discrete, Bytes, ◌++◌,
}

mutual
  pub data Json : Type 0 where
    null : Json
    boolean : Bool → Json
    natural : ℕ → Json
    -- A finite number that is negative or not whole, by its text.
    other_number : Text → Json
    string : Text → Json
    array : Items → Json
    object : Fields → Json

  pub data Items : Type 0 where
    no_items : Items
    item : Json → Items → Items

  pub data Fields : Type 0 where
    no_fields : Fields
    field : Text → Json → Fields → Fields

unfoldable pub array_of : List Json → Items
array_of [] = no_items
array_of (value ∷ values) = item value (array_of values)

unfoldable pub items_in : Items → List Json
items_in no_items = []
items_in (item value values) = value ∷ items_in values

unfoldable pub object_of : List (Text × Json) → Fields
object_of [] = no_fields
object_of ((key, value) ∷ fields) = field key value (object_of fields)

unfoldable pub fields_in : Fields → List (Text × Json)
fields_in no_fields = []
fields_in (field key value fields) = (key, value) ∷ fields_in fields

abbrev pub key_lt : Text × Json → Text × Json → Bool
key_lt a b = text_lt a.0 b.0

-- The fields in the order of their keys.
unfoldable pub sort_fields : Fields → Fields
sort_fields fields = object_of (sort key_lt (fields_in fields))

unfoldable mutual
  pub canonicalize : Json → Json
  canonicalize null = null
  canonicalize (boolean b) = boolean b
  canonicalize (natural n) = natural n
  canonicalize (other_number n) = other_number n
  canonicalize (string s) = string s
  canonicalize (array values) = array (canonicalize_items values)
  canonicalize (object fields) = object (sort_fields (canonicalize_fields fields))

  pub canonicalize_items : Items → Items
  canonicalize_items no_items = no_items
  canonicalize_items (item value values) = item (canonicalize value) (canonicalize_items values)

  pub canonicalize_fields : Fields → Fields
  canonicalize_fields no_fields = no_fields
  canonicalize_fields (field key value fields) =
      field key (canonicalize value) (canonicalize_fields fields)

-- The value of an object's own field, if it is an object and has the field.
unfoldable pub lookup : Text → Json → Option Json
lookup key (object fields) = get Text-discrete key (fields_in fields)
lookup key null = none
lookup key (boolean _) = none
lookup key (natural _) = none
lookup key (other_number _) = none
lookup key (string _) = none
lookup key (array _) = none

-- `encode` is the UTF-8 text of JSON.stringify.
module _ (encode : Json → Bytes) where
  -- canonicalJson, encoded
  unfoldable pub canonical_bytes : Json → Bytes
  canonical_bytes value = encode (canonicalize value)

  -- `digest` is the SHA-256 digest in hexadecimal.
  module _ (digest : Bytes → Text) where
    unfoldable pub sha256_canonical : Json → Text
    sha256_canonical value = digest (canonical_bytes value)

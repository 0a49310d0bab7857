-- ===== src/Value.antt =====
-- The dynamically typed values that reach the program from JSON and from Archipelago's packets,
-- and the JSON shape test `_validate_json_value` of worlds/jak3/persistence.py.
use text.Mathlib.Text.{◌==◌ as str_eq}
use jak3_ap.Prelude.{
  List, [], ◌∷◌, if◌then◌else◌, ℤ, String, Bool, true, false, ◌&&◌, ◌||◌, Result, ok, err,
  corruption, ◌>>◌, require,
}

-- `float` stands for any float and `other` for an object of any other class: the program only ever
-- asks for their types. `network_item` is an object with the attributes item, location, player and
-- flags, such as Archipelago's `NetworkItem`.
mutual
  pub data Value : Type 0 where
    null : Value
    bool : Bool → Value
    int : ℤ → Value
    str : String → Value
    float : Value
    list : Items → Value
    tuple : Items → Value
    dict : Fields → Value
    network_item : Value → Value → Value → Value → Value
    other : Value

  pub data Items : Type 0 where
    nil : Items
    cons : Value → Items → Items

  pub data Fields : Type 0 where
    end : Fields
    field : Value → Value → Fields → Fields

unfoldable pub is_text : Value → Bool
is_text (str s) = true
is_text _ = false

-- `not any(type(key) is not str for key in value)`
unfoldable pub keys_are_text : Fields → Bool
unfolding is_text
keys_are_text end = true
keys_are_text (field k v fs) = is_text k && keys_are_text fs

unfoldable mutual
  unfolding keys_are_text

  -- `_validate_json_value`
  pub validate_json_value : Value → Result (Unit {0})
  validate_json_value null = ok tt
  validate_json_value (bool b) = ok tt
  validate_json_value (int n) = ok tt
  validate_json_value (str s) = ok tt
  validate_json_value (list xs) = validate_json_items xs
  validate_json_value (dict fs) = require (keys_are_text fs) corruption >> validate_json_fields fs
  validate_json_value _ = err corruption

  pub validate_json_items : Items → Result (Unit {0})
  validate_json_items nil = ok tt
  validate_json_items (cons v xs) = validate_json_value v >> validate_json_items xs

  pub validate_json_fields : Fields → Result (Unit {0})
  validate_json_fields end = ok tt
  validate_json_fields (field k v fs) = validate_json_value v >> validate_json_fields fs

-- `_validate_json_mapping`
unfoldable pub validate_json_mapping : Value → Result (Unit {0})
unfolding validate_json_value
validate_json_mapping (dict fs) = validate_json_value (dict fs)
validate_json_mapping _ = err corruption

-- `mapping.get(key)`, for a key that is a text
unfoldable pub get : String → Fields → Value
get key end = null
get key (field (str k) v fs) = if str_eq k key then v else get key fs
get key (field _ v fs) = get key fs

unfoldable pub is_key : String → Value → Bool
is_key key (str k) = str_eq k key
is_key key _ = false

-- `key in mapping`
unfoldable pub has_key : String → Fields → Bool
unfolding is_key
has_key key end = false
has_key key (field k v fs) = is_key key k || has_key key fs

unfoldable pub has_keys : List String → Fields → Bool
unfolding has_key
has_keys [] fs = true
has_keys (key ∷ keys) fs = has_key key fs && has_keys keys fs

unfoldable pub is_one_of : List String → Value → Bool
unfolding is_key
is_one_of [] k = false
is_one_of (key ∷ keys) k = is_key key k || is_one_of keys k

unfoldable pub keys_among : List String → Fields → Bool
unfolding is_one_of
keys_among keys end = true
keys_among keys (field k v fs) = is_one_of keys k && keys_among keys fs

-- `set(mapping) == keys`
unfoldable pub has_just_keys : List String → Fields → Bool
unfolding has_keys keys_among
has_just_keys keys fs = has_keys keys fs && keys_among keys fs

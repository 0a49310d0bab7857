-- ===== src/Encoding/Json.antt =====
-- worlds/jak3/canonical.py, and what it and the state encoding use of Python's json, hashlib and
-- built-in conversions.
pub mod Order
pub mod Reading
pub mod Valid
pub mod Reordered
pub mod Canonical
use text.Mathlib.Text.{◌==◌ as str_eq}
use Prim.Native.Char.{code}
use jak3_ap.Prelude.{
  ℕ, ◌==◌, ◌≡◌, ltb, String, Bool, true, false, not, ◌&&◌, ◌||◌, Option, none, some, List, [], ◌∷◌,
  ok, if◌then◌else◌,
}
use jak3_ap.Persistence.Identity.{text_length}
use jak3_ap.Value.{Value, Items, Fields, is_text, keys_are_text, validate_json_value}

-- The libraries that the encoding rests on. `dumps` writes a value with the keys of each mapping in
-- the order in which they stand, as UTF-8 with a final newline; `loads` decodes and parses, and is
-- `none` where either raises. `decimal` is `str` of a nonnegative integer, and `parse_decimal` is
-- `int` of a text that `isdecimal` accepts. A mapping that holds a key twice stands for no dict, and
-- the laws are meant for dicts and for integers within Python's limit on decimal digits.
pub record Library : Type 1 where
  pub Bytes : Type 0
  pub is_empty : Bytes → Bool
  pub dumps : Value → Bytes
  pub loads : Bytes → Option Value
  pub sha256 : Bytes → String
  pub decimal : ℕ → String
  pub parse_decimal : String → Option ℕ
  pub dumps_not_empty : (v : Value) → is_empty (dumps v) ≡ false
  pub loads_dumps : (v : Value) → validate_json_value v ≡ ok tt → loads (dumps v) ≡ some v
  pub sha256_length : (b : Bytes) → text_length (sha256 b) ≡ 64
  pub parse_decimal_decimal : (n : ℕ) → parse_decimal (decimal n) ≡ some n

safe_list : Option Items → Option Value
safe_list none = none
safe_list (some xs) = some (Value.list xs)

safe_cons : Option Value → Option Items → Option Items
safe_cons (some v) (some xs) = some (Items.cons v xs)
safe_cons _ _ = none

safe_dict : Bool → Option Fields → Option Value
safe_dict true (some fs) = some (Value.dict fs)
safe_dict _ _ = none

safe_field : Value → Option Value → Option Fields → Option Fields
safe_field k (some v) (some fs) = some (Fields.field k v fs)
safe_field _ _ _ = none

-- `json_safe`, which is `none` where it raises; a dataclass is not met here
unfoldable mutual
  unfolding safe_list safe_cons safe_dict safe_field keys_are_text

  pub json_safe : Value → Option Value
  json_safe Value.null = some Value.null
  json_safe (Value.bool b) = some (Value.bool b)
  json_safe (Value.int n) = some (Value.int n)
  json_safe (Value.str s) = some (Value.str s)
  json_safe (Value.list xs) = safe_list (json_safe_items xs)
  json_safe (Value.tuple xs) = safe_list (json_safe_items xs)
  json_safe (Value.dict fs) = safe_dict (keys_are_text fs) (json_safe_fields fs)
  json_safe (Value.network_item a b c d) = safe_list (
      safe_cons (json_safe a) (
        safe_cons (json_safe b)
          (safe_cons (json_safe c) (safe_cons (json_safe d) (some Items.nil)))))
  json_safe _ = none

  pub json_safe_items : Items → Option Items
  json_safe_items Items.nil = some Items.nil
  json_safe_items (Items.cons v xs) = safe_cons (json_safe v) (json_safe_items xs)

  pub json_safe_fields : Fields → Option Fields
  json_safe_fields Fields.end = some Fields.end
  json_safe_fields (Fields.field k v fs) = safe_field k (json_safe v) (json_safe_fields fs)

-- the order of texts, by code points
unfoldable pub text_leb : String → String → Bool
text_leb String.[] t = true
text_leb (String.◌∷◌ c s) String.[] = false
text_leb (String.◌∷◌ c s) (String.◌∷◌ d t) =
    if ltb (code c) (code d) then true else code c == code d && text_leb s t

unfoldable pub key_leb : Value → Value → Bool
unfolding text_leb
key_leb (Value.str a) (Value.str b) = text_leb a b
key_leb _ _ = true

unfoldable pub insert_field : Value → Value → Fields → Fields
unfolding key_leb
insert_field k v Fields.end = Fields.field k v Fields.end
insert_field k v (Fields.field j w fs) =
    let rest = insert_field k v fs in
    if key_leb k j then Fields.field k v (Fields.field j w fs) else Fields.field j w rest

-- the `sort_keys` of `json.dumps`: every mapping in the order of its keys
unfoldable mutual
  unfolding insert_field

  pub sort_keys : Value → Value
  sort_keys (Value.list xs) = Value.list (sort_items xs)
  sort_keys (Value.dict fs) = Value.dict (sort_fields fs)
  sort_keys Value.null = Value.null
  sort_keys (Value.bool b) = Value.bool b
  sort_keys (Value.int n) = Value.int n
  sort_keys (Value.str s) = Value.str s
  sort_keys Value.float = Value.float
  sort_keys (Value.tuple xs) = Value.tuple xs
  sort_keys (Value.network_item a b c d) = Value.network_item a b c d
  sort_keys Value.other = Value.other

  pub sort_items : Items → Items
  sort_items Items.nil = Items.nil
  sort_items (Items.cons v xs) = Items.cons (sort_keys v) (sort_items xs)

  pub sort_fields : Fields → Fields
  sort_fields Fields.end = Fields.end
  sort_fields (Fields.field k v fs) = insert_field k (sort_keys v) (sort_fields fs)

unfoldable pub render : (lib : Library) → Option Value → Option (Library.Bytes lib)
render lib none = none
render lib (some safe) = some (lib.dumps (sort_keys safe))

-- `canonical_json_bytes`, which is `none` where `json_safe` raises
unfoldable pub canonical_json_bytes : (lib : Library) → Value → Option (Library.Bytes lib)
unfolding json_safe render
canonical_json_bytes lib v = render lib (json_safe v)

-- ===== src/Encoding/Json/Reading.antt =====
-- Reading a sorted mapping, and values that `json_safe` leaves as they are.
use text.Mathlib.TextEquality.{eq_iff}
use jak3_ap.Prelude.{
  List, [], ◌∷◌, ◌≡◌, ◌∙◌, refl, String, true, some, ok, arith, require, corruption, >>-eq-ok,
}
use jak3_ap.Value.{
  Value, Items, Fields, get, has_key, has_keys, keys_among, has_just_keys, is_text, keys_are_text,
  validate_json_value, validate_json_items, validate_json_fields,
}
use jak3_ap.Encoding.Json.{
  json_safe, json_safe_items, json_safe_fields, key_leb, insert_field, sort_keys, sort_fields,
}
use jak3_ap.Encoding.Json.Order.{text_leb_refl}

mutual
  unfolding json_safe validate_json_value

  safe_lem : (v : Value) → validate_json_value v ≡ ok tt → json_safe v ≡ some v
  safe_lem Value.null h = refl
  safe_lem (Value.bool b) h = refl
  safe_lem (Value.int n) h = refl
  safe_lem (Value.str s) h = refl
  safe_lem Value.float h = cc
  safe_lem (Value.list xs) h = rw (safe_items_lem xs h) refl
  safe_lem (Value.tuple xs) h = cc
  safe_lem (Value.dict fs) h =
      let (k, e) = >>-eq-ok (require (keys_are_text fs) corruption) (validate_json_fields fs) h in
      ground (arith, k, safe_fields_lem fs e)
  safe_lem (Value.network_item a b c d) h = cc
  safe_lem Value.other h = cc

  safe_items_lem : (xs : Items) → validate_json_items xs ≡ ok tt → json_safe_items xs ≡ some xs
  safe_items_lem Items.nil h = refl
  safe_items_lem (Items.cons v xs) h =
      let (a, b) = >>-eq-ok (validate_json_value v) (validate_json_items xs) h in
      rw (safe_lem v a, safe_items_lem xs b) refl

  safe_fields_lem : (fs : Fields) → validate_json_fields fs ≡ ok tt → json_safe_fields fs ≡ some fs
  safe_fields_lem Fields.end h = refl
  safe_fields_lem (Fields.field k v fs) h =
      let (a, b) = >>-eq-ok (validate_json_value v) (validate_json_fields fs) h in
      rw (safe_lem v a, safe_fields_lem fs b) refl

get-insert_field :
    (key : String) (k v : Value) (fs : Fields)
    → is_text k ≡ true
    → get key (insert_field k v fs) ≡ get key (Fields.field k v fs)
unfolding get insert_field key_leb is_text
get-insert_field key (Value.str a) v Fields.end h = refl
get-insert_field key (Value.str a) v (Fields.field (Value.str b) w fs) h = ground (
  arith,
  eq_iff a key,
  eq_iff b key,
  eq_iff a b,
  text_leb_refl a,
  get-insert_field key (Value.str a) v fs h,
)
get-insert_field key (Value.str a) v (Fields.field j w fs) h = refl
get-insert_field key k v fs h = cc

-- A sorted mapping has the same keys, with their values sorted.
pub get-sort_fields :
    (key : String) (fs : Fields)
    → keys_are_text fs ≡ true
    → get key (sort_fields fs) ≡ sort_keys (get key fs)
unfolding sort_fields keys_are_text get is_text
get-sort_fields key Fields.end h = refl
get-sort_fields key (Fields.field (Value.str a) v fs) h = ground (
  arith,
  get-insert_field key (Value.str a) (sort_keys v) (sort_fields fs),
  get-sort_fields key fs h,
)
get-sort_fields key (Fields.field k v fs) h = cc

has_key-insert_field :
    (key : String) (k v : Value) (fs : Fields)
    → has_key key (insert_field k v fs) ≡ has_key key (Fields.field k v fs)
unfolding has_key insert_field
has_key-insert_field key k v Fields.end = refl
has_key-insert_field key k v (Fields.field j w fs) = ground (arith, has_key-insert_field key k v fs)

has_key-sort_fields : (key : String) (fs : Fields) → has_key key (sort_fields fs) ≡ has_key key fs
unfolding sort_fields has_key
has_key-sort_fields key Fields.end = refl
has_key-sort_fields key (Fields.field k v fs) =
    has_key-insert_field key k (sort_keys v) (sort_fields fs) ∙ rw (has_key-sort_fields key fs) refl

has_keys-sort_fields :
    (keys : List String) (fs : Fields) → has_keys keys (sort_fields fs) ≡ has_keys keys fs
unfolding has_keys
has_keys-sort_fields [] fs = refl
has_keys-sort_fields (key ∷ keys) fs =
    rw (has_key-sort_fields key fs, has_keys-sort_fields keys fs) refl

keys_among-insert_field :
    (keys : List String) (k v : Value) (fs : Fields)
    → keys_among keys (insert_field k v fs) ≡ keys_among keys (Fields.field k v fs)
unfolding keys_among insert_field
keys_among-insert_field keys k v Fields.end = refl
keys_among-insert_field keys k v (Fields.field j w fs) =
    ground (arith, keys_among-insert_field keys k v fs)

keys_among-sort_fields :
    (keys : List String) (fs : Fields) → keys_among keys (sort_fields fs) ≡ keys_among keys fs
unfolding sort_fields keys_among
keys_among-sort_fields keys Fields.end = refl
keys_among-sort_fields keys (Fields.field k v fs) =
    keys_among-insert_field keys k (sort_keys v) (sort_fields fs)
    ∙ rw (keys_among-sort_fields keys fs) refl

pub has_just_keys-sort_fields :
    (keys : List String) (fs : Fields) → has_just_keys keys (sort_fields fs) ≡ has_just_keys keys fs
unfolding has_just_keys
has_just_keys-sort_fields keys fs =
    rw (has_keys-sort_fields keys fs, keys_among-sort_fields keys fs) refl

keys_are_text-insert_field :
    (k v : Value) (fs : Fields)
    → keys_are_text (insert_field k v fs) ≡ keys_are_text (Fields.field k v fs)
unfolding keys_are_text insert_field
keys_are_text-insert_field k v Fields.end = refl
keys_are_text-insert_field k v (Fields.field j w fs) =
    ground (arith, keys_are_text-insert_field k v fs)

pub keys_are_text-sort_fields : (fs : Fields) → keys_are_text (sort_fields fs) ≡ keys_are_text fs
unfolding sort_fields keys_are_text
keys_are_text-sort_fields Fields.end = refl
keys_are_text-sort_fields (Fields.field k v fs) =
    keys_are_text-insert_field k (sort_keys v) (sort_fields fs)
    ∙ rw (keys_are_text-sort_fields fs) refl

-- `json_safe` leaves JSON values as they are.
pub json_safe_lem : (v : Value) → validate_json_value v ≡ ok tt → json_safe v ≡ some v
json_safe_lem v h = safe_lem v h

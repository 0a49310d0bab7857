-- ===== src/Encoding/Json/Valid.antt =====
-- Sorting the keys of a JSON value leaves a JSON value.
use jak3_ap.Prelude.{◌≡◌, refl, List, [], ◌∷◌, map, ok, >>-eq-ok, require, corruption, arith}
use jak3_ap.Value.{
  Value, Items, Fields, keys_are_text, validate_json_value, validate_json_items,
  validate_json_fields, validate_json_mapping,
}
use jak3_ap.Persistence.Validate.{validate_traps}
use jak3_ap.Encoding.Json.{insert_field, sort_keys, sort_items, sort_fields}
use jak3_ap.Encoding.Json.Reading.{keys_are_text-sort_fields}

valid-insert_field :
    (k v : Value) (fs : Fields)
    → validate_json_value v ≡ ok tt
    → validate_json_fields fs ≡ ok tt
    → validate_json_fields (insert_field k v fs) ≡ ok tt
unfolding insert_field validate_json_value
valid-insert_field k v Fields.end h g = rw h refl
valid-insert_field k v (Fields.field j w fs) h g =
    let (a, b) = >>-eq-ok (validate_json_value w) (validate_json_fields fs) g in
    ground (arith, a, b, h, valid-insert_field k v fs h b)

mutual
  unfolding sort_keys validate_json_value

  keys_valid :
      (v : Value) → validate_json_value v ≡ ok tt → validate_json_value (sort_keys v) ≡ ok tt
  keys_valid Value.null h = refl
  keys_valid (Value.bool b) h = refl
  keys_valid (Value.int n) h = refl
  keys_valid (Value.str s) h = refl
  keys_valid Value.float h = h
  keys_valid (Value.list xs) h = items_valid xs h
  keys_valid (Value.tuple xs) h = h
  keys_valid (Value.dict fs) h =
      let (a, b) = >>-eq-ok (require (keys_are_text fs) corruption) (validate_json_fields fs) h in
      rw (keys_are_text-sort_fields fs, a) (fields_valid fs b)
  keys_valid (Value.network_item a b c d) h = h
  keys_valid Value.other h = h

  items_valid :
      (xs : Items) → validate_json_items xs ≡ ok tt → validate_json_items (sort_items xs) ≡ ok tt
  items_valid Items.nil h = refl
  items_valid (Items.cons v xs) h =
      let (a, b) = >>-eq-ok (validate_json_value v) (validate_json_items xs) h in
      rw (keys_valid v a) (items_valid xs b)

  fields_valid :
      (fs : Fields)
      → validate_json_fields fs ≡ ok tt
      → validate_json_fields (sort_fields fs) ≡ ok tt
  fields_valid Fields.end h = refl
  fields_valid (Fields.field k v fs) h =
      let (a, b) = >>-eq-ok (validate_json_value v) (validate_json_fields fs) h in
      valid-insert_field k (sort_keys v) (sort_fields fs) (keys_valid v a) (fields_valid fs b)

pub validate_json_value-sort_keys :
    (v : Value) → validate_json_value v ≡ ok tt → validate_json_value (sort_keys v) ≡ ok tt
validate_json_value-sort_keys v h = keys_valid v h

pub validate_json_mapping-sort_keys :
    (v : Value) → validate_json_mapping v ≡ ok tt → validate_json_mapping (sort_keys v) ≡ ok tt
unfolding validate_json_mapping sort_keys
validate_json_mapping-sort_keys (Value.dict fs) h = validate_json_value-sort_keys (Value.dict fs) h
validate_json_mapping-sort_keys v h = cc

pub validate_traps-sort_keys :
    (vs : List Value) → validate_traps vs ≡ ok tt → validate_traps (map sort_keys vs) ≡ ok tt
unfolding validate_traps
validate_traps-sort_keys [] h = refl
validate_traps-sort_keys (v ∷ vs) h =
    let (a, b) = >>-eq-ok (validate_json_mapping v) (validate_traps vs) h in
    rw (validate_json_mapping-sort_keys v a) (validate_traps-sort_keys vs b)

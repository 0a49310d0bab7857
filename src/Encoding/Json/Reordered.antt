-- ===== src/Encoding/Json/Reordered.antt =====
-- Values that differ in the order of the keys of their mappings, at any depth, are the same once
-- their keys are sorted.
use text.Mathlib.TextEquality.{Char-path}
use Prim.Native.Char.{code}
use jak3_ap.Prelude.{◌≡◌, ◌≢◌, refl, ap, ◌∙◌, sym, String, true, false, arith, Bool-cases, inl, inr}
use jak3_ap.Value.{Value, Items, Fields}
use jak3_ap.Encoding.Json.{text_leb, key_leb, insert_field, sort_keys, sort_items, sort_fields}
use jak3_ap.Encoding.Json.Order.{text_leb_total}

text_leb_trans : (r s t : String) → text_leb r s ≡ true → text_leb s t ≡ true → text_leb r t ≡ true
unfolding text_leb
text_leb_trans String.[] s t h g = refl
text_leb_trans (String.◌∷◌ b r) String.[] t h g = cc
text_leb_trans (String.◌∷◌ b r) (String.◌∷◌ c s) String.[] h g = cc
text_leb_trans (String.◌∷◌ b r) (String.◌∷◌ c s) (String.◌∷◌ d t) h g =
    ground (arith, text_leb_trans r s t)

text_leb_antisym : (s t : String) → text_leb s t ≡ true → text_leb t s ≡ true → s ≡ t
unfolding text_leb
text_leb_antisym String.[] String.[] h g = refl
text_leb_antisym String.[] (String.◌∷◌ d t) h g = cc
text_leb_antisym (String.◌∷◌ c s) String.[] h g = cc
text_leb_antisym (String.◌∷◌ c s) (String.◌∷◌ d t) h g =
    λ i. String.◌∷◌ (Char-path c d both.0 i) (text_leb_antisym s t both.1 both.2 i)
  where
    both : (code c ≡ code d) × (text_leb s t ≡ true) × (text_leb t s ≡ true)
    both = ground arith

-- where the first text stands before the second, the second passes each key that the first passes
passes :
    (a b : String) (j : Value)
    → text_leb b a ≡ false
    → key_leb (Value.str b) j ≡ true
    → text_leb a b ≡ true
    → key_leb (Value.str a) j ≡ true
unfolding key_leb
passes a b (Value.str c) h g e = text_leb_trans a b c e g
passes a b j h g e = ground arith

insert_ordered :
    (a b : String) (v w : Value) (fs : Fields)
    → text_leb a b ≡ true
    → text_leb b a ≡ false
    → insert_field (Value.str a) v (insert_field (Value.str b) w fs)
      ≡ insert_field (Value.str b) w (insert_field (Value.str a) v fs)
unfolding insert_field key_leb
insert_ordered a b v w Fields.end e n = rw (e, n) refl
insert_ordered a b v w (Fields.field j x fs) e n = elim (Bool-cases (key_leb (Value.str b) j)) [
  | inl q ↦ rw (q, passes a b j n q e, e, n, q) refl
  | inr q ↦ elim (Bool-cases (key_leb (Value.str a) j)) [
    | inl r ↦ rw (q, r, n, q) refl
    | inr r ↦ rw (q, r, q) (ap (Fields.field j x) (insert_ordered a b v w fs e n))
  ]
]

-- the fields of two keys are inserted in either order
insert_swap :
    (a b : String) (v w : Value) (fs : Fields)
    → a ≢ b
    → insert_field (Value.str a) v (insert_field (Value.str b) w fs)
      ≡ insert_field (Value.str b) w (insert_field (Value.str a) v fs)
insert_swap a b v w fs d = elim (Bool-cases (text_leb a b)) [
  | inl e ↦ elim (Bool-cases (text_leb b a)) [
    | inl g ↦ absurd (d (text_leb_antisym a b e g))
    | inr n ↦ insert_ordered a b v w fs e n
  ]
  | inr n ↦ sym (insert_ordered b a w v fs (text_leb_total a b n) n)
]

-- The same value but for the order of the keys in its mappings: neighbours of different keys are
-- swapped, any number of times and at any depth.
mutual
  pub data Reordered : Value → Value → Type 0 where
    same : {v : Value} → Reordered v v
    in_list : {xs ys : Items} → ReorderedItems xs ys → Reordered (Value.list xs) (Value.list ys)
    in_dict : {fs gs : Fields} → ReorderedFields fs gs → Reordered (Value.dict fs) (Value.dict gs)

  pub data ReorderedItems : Items → Items → Type 0 where
    no_item : ReorderedItems Items.nil Items.nil
    next_item :
        {v w : Value} {xs ys : Items}
        → Reordered v w
        → ReorderedItems xs ys
        → ReorderedItems (Items.cons v xs) (Items.cons w ys)

  pub data ReorderedFields : Fields → Fields → Type 0 where
    no_field : ReorderedFields Fields.end Fields.end
    next_field :
        {k v w : Value} {fs gs : Fields}
        → Reordered v w
        → ReorderedFields fs gs
        → ReorderedFields (Fields.field k v fs) (Fields.field k w gs)
    swapped :
        {a b : String} {v w : Value} {fs : Fields}
        → a ≢ b
        → ReorderedFields
            (Fields.field (Value.str a) v (Fields.field (Value.str b) w fs))
            (Fields.field (Value.str b) w (Fields.field (Value.str a) v fs))
    in_steps :
        {fs gs hs : Fields} → ReorderedFields fs gs → ReorderedFields gs hs → ReorderedFields fs hs

mutual
  unfolding sort_keys

  keys_same : {v w : Value} → Reordered v w → sort_keys v ≡ sort_keys w
  keys_same same = refl
  keys_same (in_list r) = ap Value.list (items_same r)
  keys_same (in_dict r) = ap Value.dict (fields_same r)

  items_same : {xs ys : Items} → ReorderedItems xs ys → sort_items xs ≡ sort_items ys
  items_same no_item = refl
  items_same (next_item r rs) = cc (keys_same r, items_same rs)

  fields_same : {fs gs : Fields} → ReorderedFields fs gs → sort_fields fs ≡ sort_fields gs
  fields_same no_field = refl
  fields_same (next_field {k = k} r rs) = cc (keys_same r, fields_same rs)
  fields_same (swapped {a = a} {b = b} {v = v} {w = w} {fs = fs} d) =
      insert_swap a b (sort_keys v) (sort_keys w) (sort_fields fs) d
  fields_same (in_steps r q) = fields_same r ∙ fields_same q

pub sort_keys-Reordered : {v w : Value} → Reordered v w → sort_keys v ≡ sort_keys w
sort_keys-Reordered r = keys_same r

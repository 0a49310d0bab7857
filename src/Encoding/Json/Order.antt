-- ===== src/Encoding/Json/Order.antt =====
-- Sorting the keys of a value: the order of texts is total, and sorting twice is sorting once.
use jak3_ap.Prelude.{◌≡◌, refl, ap, String, true, false, arith, Bool-cases, inl, inr}
use jak3_ap.Value.{Value, Items, Fields}
use jak3_ap.Encoding.Json.{text_leb, key_leb, insert_field, sort_keys, sort_items, sort_fields}

pub text_leb_total : (s t : String) → text_leb s t ≡ false → text_leb t s ≡ true
unfolding text_leb
text_leb_total String.[] t h = cc
text_leb_total (String.◌∷◌ c s) String.[] h = refl
text_leb_total (String.◌∷◌ c s) (String.◌∷◌ d t) h = ground (arith, text_leb_total s t)

pub text_leb_refl : (s : String) → text_leb s s ≡ true
unfolding text_leb
text_leb_refl String.[] = refl
text_leb_refl (String.◌∷◌ c s) = ground (arith, text_leb_refl s)

key_leb_total : (k j : Value) → key_leb k j ≡ false → key_leb j k ≡ true
unfolding key_leb
key_leb_total (Value.str a) (Value.str b) h = text_leb_total a b h
key_leb_total (Value.str a) j h = ground arith
key_leb_total k j h = ground arith

-- the key stands before all that follow it in an ascending mapping
Lower : Value → Fields → Type 0
Lower k Fields.end = Unit
Lower k (Fields.field j w fs) = key_leb k j ≡ true

Ascending : Fields → Type 0
unfolding Lower
Ascending Fields.end = Unit
Ascending (Fields.field k v fs) = Lower k fs × Ascending fs

-- each value has its own keys in order
Settled : Fields → Type 0
Settled Fields.end = Unit
Settled (Fields.field k v fs) = (sort_keys v ≡ v) × Settled fs

insert_head : (k v : Value) (fs : Fields) → Lower k fs → insert_field k v fs ≡ Fields.field k v fs
unfolding insert_field Lower
insert_head k v Fields.end h = refl
insert_head k v (Fields.field j w fs) h = rw h refl

insert-Lower :
    (j k v : Value) (fs : Fields) → Lower j fs → key_leb j k ≡ true → Lower j (insert_field k v fs)
unfolding insert_field Lower
insert-Lower j k v Fields.end h e = e
insert-Lower j k v (Fields.field i w fs) h e = ground arith

insert-Ascending : (k v : Value) (fs : Fields) → Ascending fs → Ascending (insert_field k v fs)
unfolding insert_field Ascending Lower
insert-Ascending k v Fields.end h = (tt, tt)
insert-Ascending k v (Fields.field j w fs) h = elim (Bool-cases (key_leb k j)) [
  | inl e ↦ rw e (e, h)
  | inr e ↦ rw e (insert-Lower j k v fs h.0 (key_leb_total k j e), insert-Ascending k v fs h.1)
]

insert-Settled :
    (k v : Value) (fs : Fields) → sort_keys v ≡ v → Settled fs → Settled (insert_field k v fs)
unfolding insert_field Settled
insert-Settled k v Fields.end e h = (e, tt)
insert-Settled k v (Fields.field j w fs) e h = elim (Bool-cases (key_leb k j)) [
  | inl o ↦ rw o (e, h)
  | inr o ↦ rw o (h.0, insert-Settled k v fs e h.1)
]

sort_fields-Ascending : (fs : Fields) → Ascending (sort_fields fs)
unfolding sort_fields Ascending
sort_fields-Ascending Fields.end = tt
sort_fields-Ascending (Fields.field k v fs) =
    insert-Ascending k (sort_keys v) (sort_fields fs) (sort_fields-Ascending fs)

sort-Settled : (fs : Fields) → Ascending fs → Settled fs → sort_fields fs ≡ fs
unfolding sort_fields Ascending Settled
sort-Settled Fields.end h e = refl
sort-Settled (Fields.field k v fs) h e = rw (e.0, sort-Settled fs h.1 e.1) (insert_head k v fs h.0)

mutual
  unfolding sort_keys Settled

  keys_again : (v : Value) → sort_keys (sort_keys v) ≡ sort_keys v
  keys_again Value.null = refl
  keys_again (Value.bool b) = refl
  keys_again (Value.int n) = refl
  keys_again (Value.str s) = refl
  keys_again Value.float = refl
  keys_again (Value.list xs) = ap Value.list (items_again xs)
  keys_again (Value.tuple xs) = refl
  keys_again (Value.dict fs) =
      ap Value.dict (sort-Settled (sort_fields fs) (sort_fields-Ascending fs) (fields_again fs))
  keys_again (Value.network_item a b c d) = refl
  keys_again Value.other = refl

  items_again : (xs : Items) → sort_items (sort_items xs) ≡ sort_items xs
  items_again Items.nil = refl
  items_again (Items.cons v xs) = cc (keys_again v, items_again xs)

  fields_again : (fs : Fields) → Settled (sort_fields fs)
  fields_again Fields.end = tt
  fields_again (Fields.field k v fs) =
      insert-Settled k (sort_keys v) (sort_fields fs) (keys_again v) (fields_again fs)

-- Sorting the keys of a value, at every depth, is idempotent.
pub sort_keys_again : (v : Value) → sort_keys (sort_keys v) ≡ sort_keys v
sort_keys_again v = keys_again v

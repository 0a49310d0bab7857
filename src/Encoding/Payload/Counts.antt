-- ===== src/Encoding/Payload/Counts.antt =====
-- The item counts read back: the keys of their mapping are sorted as texts, then as numbers.
use jak3_ap.Prelude.{
  ℕ, ◌<◌, ◌≡◌, ltb, leb, refl, String, Bool, true, false, ◌&&◌, ◌||◌, ◌==◌, Option, none, some,
  List, [], ◌∷◌, Result, ok, err, ◌>>=◌, ◌>>◌, ◌∙◌, ap, arith, Bool-cases, inl, inr, ◌⊎◌, pos, ℤ,
}
use jak3_ap.Value.{Value, Fields, keys_are_text}
use jak3_ap.Persistence.State.{ReceivedItemJournalEntry}
use jak3_ap.Persistence.Journal.{bump, item_counts}
use jak3_ap.Encoding.Json.{Library, key_leb, insert_field, sort_keys, sort_fields}
use jak3_ap.Encoding.Payload.Write.{count_fields}
use jak3_ap.Encoding.Payload.Read.{
  insert_count, parse_decimal_id, read_nat, read_count, read_count_fields, read_counts,
}
use jak3_ap.Encoding.Payload.Parts.{require_mapping-sort}

insert_comm :
    (i c j d : ℕ) (xs : List (ℕ × ℕ))
    → insert_count i c (insert_count j d xs) ≡ insert_count j d (insert_count i c xs)
unfolding insert_count
insert_comm i c j d [] = ground arith
insert_comm i c j d ((k, e) ∷ xs) = ground (arith, insert_comm i c j d xs)

Result-cases {ℓ} :
    {A : Type ℓ} (r : Result A)
    → ((a : A) × (r ≡ ok a)) ⊎ ((e : jak3_ap.Prelude.Error) × (r ≡ err e))
Result-cases (ok a) = inl (a, refl)
Result-cases (err e) = inr (e, refl)

-- sorts pairs by insertion
sort_counts : List (ℕ × ℕ) → List (ℕ × ℕ)
sort_counts [] = []
sort_counts ((i, c) ∷ counts) = insert_count i c (sort_counts counts)

Before : ℕ → List (ℕ × ℕ) → Type 0
Before i [] = Unit
Before i ((j, d) ∷ counts) = i < j

-- the IDs ascend
pub IsAscending : List (ℕ × ℕ) → Type 0
unfolding Before
IsAscending [] = Unit
IsAscending ((i, c) ∷ counts) = Before i counts × IsAscending counts

insert-Before : (i c : ℕ) (xs : List (ℕ × ℕ)) → Before i xs → insert_count i c xs ≡ (i, c) ∷ xs
unfolding insert_count Before
insert-Before i c [] h = refl
insert-Before i c ((j, d) ∷ xs) h = ground arith

sort_ascending : (xs : List (ℕ × ℕ)) → IsAscending xs → sort_counts xs ≡ xs
unfolding sort_counts IsAscending
sort_ascending [] h = refl
sort_ascending ((i, c) ∷ xs) h =
    ap (insert_count i c) (sort_ascending xs h.1) ∙ insert-Before i c xs h.0

Before-bump : (i j : ℕ) (xs : List (ℕ × ℕ)) → i < j → Before i xs → Before i (bump j xs)
unfolding bump Before
Before-bump i j [] l h = l
Before-bump i j ((k, d) ∷ xs) l h = ground arith

bump-IsAscending : (i : ℕ) (xs : List (ℕ × ℕ)) → IsAscending xs → IsAscending (bump i xs)
unfolding bump IsAscending Before
bump-IsAscending i [] h = (tt, tt)
bump-IsAscending i ((j, d) ∷ xs) h =
    ground (arith, bump-IsAscending i xs h.1, Before-bump j i xs, h.0)

pub item_counts-IsAscending :
    (journal : List ReceivedItemJournalEntry) → IsAscending (item_counts journal)
unfolding item_counts IsAscending
item_counts-IsAscending [] = tt
item_counts-IsAscending (e ∷ journal) =
    bump-IsAscending e.item_id _ (item_counts-IsAscending journal)

-- two fields may be read in either order
read_swap :
    (lib : Library) (i c : ℕ) (k v : Value) (rest : Result (List (ℕ × ℕ)))
    → read_count lib k v (rest >>= (λ xs. ok (insert_count i c xs)))
      ≡ (read_count lib k v rest >>= (λ xs. ok (insert_count i c xs)))
read_swap lib i c k v rest = elim (Result-cases (parse_decimal_id lib k)) [
  | inr (e, h) ↦ unfold read_count in rw h refl
  | inl (j, h) ↦ elim (Result-cases (read_nat v)) [
    | inr (e, g) ↦ unfold read_count in rw (h, g) refl
    | inl (d, g) ↦ elim (Result-cases rest) [
      | inr (e, r) ↦ unfold read_count in rw (h, g, r) refl
      | inl (xs, r) ↦ unfold read_count in rw (h, g, r, insert_comm j d i c xs) refl
    ]
  ]
]

read_own :
    (lib : Library) (i c : ℕ) (rest : Result (List (ℕ × ℕ)))
    → read_count lib (Value.str (lib.decimal i)) (Value.int (pos c)) rest
      ≡ (rest >>= (λ xs. ok (insert_count i c xs)))
unfolding read_count parse_decimal_id read_nat
read_own lib i c rest = rw (lib.parse_decimal_decimal i) refl

read-insert_field :
    (lib : Library) (i c : ℕ) (fs : Fields)
    → read_count_fields lib (insert_field (Value.str (lib.decimal i)) (Value.int (pos c)) fs)
      ≡ (read_count_fields lib fs >>= (λ xs. ok (insert_count i c xs)))
unfolding read_count_fields insert_field
read-insert_field lib i c Fields.end = read_own lib i c (ok [])
read-insert_field lib i c (Fields.field k v fs) =
    elim (Bool-cases (key_leb (Value.str (lib.decimal i)) k)) [
      | inl e ↦ rw e (read_own lib i c (read_count_fields lib (Fields.field k v fs)))
      | inr e ↦ rw e (
          ap (read_count lib k v) (read-insert_field lib i c fs)
          ∙ read_swap lib i c k v (read_count_fields lib fs))
    ]

read-sort_counts :
    (lib : Library) (counts : List (ℕ × ℕ))
    → read_count_fields lib (sort_fields (count_fields lib counts)) ≡ ok (sort_counts counts)
unfolding sort_keys count_fields sort_counts
read-sort_counts lib [] = unfold read_count_fields in refl
read-sort_counts lib ((i, c) ∷ counts) =
    read-insert_field lib i c (sort_fields (count_fields lib counts))
    ∙ ap (λ (q : Result (List (ℕ × ℕ))). q >>= (λ xs. ok (insert_count i c xs)))
        (read-sort_counts lib counts)

pub count_keys :
    (lib : Library) (counts : List (ℕ × ℕ)) → keys_are_text (count_fields lib counts) ≡ true
unfolding count_fields keys_are_text
count_keys lib [] = refl
count_keys lib ((i, c) ∷ counts) = count_keys lib counts

pub counts_back :
    (lib : Library) (counts : List (ℕ × ℕ))
    → IsAscending counts
    → read_counts lib (sort_keys (Value.dict (count_fields lib counts))) ≡ ok counts
unfolding read_counts
counts_back lib counts h =
    rw (require_mapping-sort (count_fields lib counts) (count_keys lib counts))
      (read-sort_counts lib counts ∙ ap ok (sort_ascending counts h))

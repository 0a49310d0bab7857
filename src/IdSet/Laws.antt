-- ===== src/IdSet/Laws.antt =====
-- Membership after each set operation.
use jak3_ap.Prelude.{
  ℕ, ◌≡◌, refl, ◌∙◌, true, false, not, ◌&&◌, ◌||◌, List, [], ◌∷◌, ◌++◌, arith, ◌==◌,
}
use jak3_ap.IdSet.{
  member, difference, intersection, subset, is_empty, same_list, insert, sorted_set, insert_le,
  sort, Subset,
}

pub member-cons : (n x : ℕ) (xs : List ℕ) → member n (x ∷ xs) ≡ (n == x || member n xs)
unfolding member
member-cons n x xs = refl

pub member-nil : (n : ℕ) → member n [] ≡ false
unfolding member
member-nil n = refl

pub member-append : (n : ℕ) (xs ys : List ℕ) → member n (xs ++ ys) ≡ (member n xs || member n ys)
unfolding member
member-append n [] ys = refl
member-append n (x ∷ xs) ys = ground (arith, member-append n xs ys)

pub member-difference :
    (n : ℕ) (xs ys : List ℕ) → member n (difference xs ys) ≡ (member n xs && not (member n ys))
unfolding difference
member-difference n [] ys = rw member-nil
member-difference n (x ∷ xs) ys =
    ground
      (arith, member-cons n x xs, member-cons n x (difference xs ys), member-difference n xs ys)

pub member-intersection :
    (n : ℕ) (xs ys : List ℕ) → member n (intersection xs ys) ≡ (member n xs && member n ys)
unfolding intersection
member-intersection n [] ys = rw member-nil
member-intersection n (x ∷ xs) ys =
    ground
      (arith, member-cons n x xs, member-cons n x (intersection xs ys), member-intersection n xs ys)

pub member-insert : (n m : ℕ) (xs : List ℕ) → member n (insert m xs) ≡ (n == m || member n xs)
unfolding member insert
member-insert n m [] = refl
member-insert n m (x ∷ xs) = ground (arith, member-insert n m xs)

pub member-sorted_set : (n : ℕ) (xs : List ℕ) → member n (sorted_set xs) ≡ member n xs
unfolding sorted_set
member-sorted_set n [] = refl
member-sorted_set n (x ∷ xs) =
    member-insert n x (sorted_set xs) ∙ rw (member-sorted_set n xs, member-cons)

pub member-insert_le : (n m : ℕ) (xs : List ℕ) → member n (insert_le m xs) ≡ (n == m || member n xs)
unfolding member insert_le
member-insert_le n m [] = refl
member-insert_le n m (x ∷ xs) = ground (arith, member-insert_le n m xs)

pub member-sort : (n : ℕ) (xs : List ℕ) → member n (sort xs) ≡ member n xs
unfolding sort
member-sort n [] = refl
member-sort n (x ∷ xs) = member-insert_le n x (sort xs) ∙ rw (member-sort n xs, member-cons)

pub member_head : (n : ℕ) (xs : List ℕ) → member n (n ∷ xs) ≡ true
unfolding member
member_head n xs = ground arith

pub member_tail : (n x : ℕ) (xs : List ℕ) → member n xs ≡ true → member n (x ∷ xs) ≡ true
unfolding member
member_tail n x xs h = ground arith

pub subset_sound : (xs ys : List ℕ) → subset xs ys ≡ true → Subset xs ys
unfolding subset
subset_sound [] ys h n m = cc (member-nil n)
subset_sound (x ∷ xs) ys h n m =
    ground (arith, member-cons n x xs, subset_sound xs ys (ground arith) n)

pub subset_complete : (xs ys : List ℕ) → Subset xs ys → subset xs ys ≡ true
unfolding subset
subset_complete [] ys h = refl
subset_complete (x ∷ xs) ys h =
    ground
      (arith, h x (member_head x xs), subset_complete xs ys (λ n m. h n (member_tail n x xs m)))

pub is_empty_sound : (xs : List ℕ) → is_empty xs ≡ true → (n : ℕ) → member n xs ≡ false
unfolding is_empty member
is_empty_sound [] h n = refl
is_empty_sound (x ∷ xs) h n = cc

pub is_empty_complete : (xs : List ℕ) → ((n : ℕ) → member n xs ≡ false) → is_empty xs ≡ true
unfolding is_empty
is_empty_complete [] h = refl
is_empty_complete (x ∷ xs) h = cc (h x, member_head x xs)

pub same_list_sound : (xs ys : List ℕ) → same_list xs ys ≡ true → xs ≡ ys
unfolding same_list
same_list_sound [] [] h = refl
same_list_sound [] (y ∷ ys) h = cc
same_list_sound (x ∷ xs) [] h = cc
same_list_sound (x ∷ xs) (y ∷ ys) h = ground (arith, same_list_sound xs ys)

pub same_list_refl : (xs : List ℕ) → same_list xs xs ≡ true
unfolding same_list
same_list_refl [] = refl
same_list_refl (x ∷ xs) = ground (arith, same_list_refl xs)

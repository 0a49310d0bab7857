-- ===== src/IdSet/Order.antt =====
-- `sorted_set` returns the one strictly sorted list with the same members.
use jak3_ap.Prelude.{
  ℕ, ◌<◌, ◌≡◌, refl, ap, sym, subst, ◌∙◌, inl, inr, true, false, List, [], ◌∷◌, arith, ltb, ◌==◌,
  Bool-cases,
}
use jak3_ap.IdSet.{member, same_list, insert, sorted_set, Above, IsSorted}
use jak3_ap.IdSet.Laws.{
  member-cons, member-nil, member_head, member-sorted_set, same_list_sound, same_list_refl,
}

Above-insert : (k n : ℕ) (xs : List ℕ) → k < n → Above k xs → Above k (insert n xs)
unfolding insert
Above-insert k n [] h a = (h, tt)
Above-insert k n (x ∷ xs) h a = ground (arith, Above-insert k n xs h a.1)

Above-trans : (k n : ℕ) (xs : List ℕ) → k < n → Above n xs → Above k xs
Above-trans k n [] h a = tt
Above-trans k n (x ∷ xs) h a = (omega arith, Above-trans k n xs h a.1)

pub insert-IsSorted : (n : ℕ) (xs : List ℕ) → IsSorted xs → IsSorted (insert n xs)
unfolding insert
insert-IsSorted n [] h = (tt, tt)
insert-IsSorted n (x ∷ xs) h = elim (Bool-cases (ltb n x)) [
  | inl lt ↦ rw lt ((ground arith, Above-trans n x xs (ground arith) h.0), h)
  | inr ge ↦ rw ge (elim (Bool-cases (n == x)) [
    | inl e ↦ rw e h
    | inr ne ↦ rw ne (Above-insert x n xs (ground arith) h.0, insert-IsSorted n xs h.1)
  ])
]

pub sorted_set-IsSorted : (xs : List ℕ) → IsSorted (sorted_set xs)
unfolding sorted_set
sorted_set-IsSorted [] = tt
sorted_set-IsSorted (x ∷ xs) = insert-IsSorted x (sorted_set xs) (sorted_set-IsSorted xs)

Above-fixed : (n : ℕ) (xs : List ℕ) → Above n xs → insert n xs ≡ n ∷ xs
unfolding insert
Above-fixed n [] h = refl
Above-fixed n (x ∷ xs) h = ground arith

-- A sorted tuple is kept as it is.
pub sorted_set_fixed : (xs : List ℕ) → IsSorted xs → sorted_set xs ≡ xs
unfolding sorted_set
sorted_set_fixed [] h = refl
sorted_set_fixed (x ∷ xs) h = ap (insert x) (sorted_set_fixed xs h.1) ∙ Above-fixed x xs h.0

Above-not_member : (n : ℕ) (xs : List ℕ) → Above n xs → member n xs ≡ false
unfolding member
Above-not_member n [] h = refl
Above-not_member n (x ∷ xs) h = ground (arith, Above-not_member n xs h.1)

Above-member : (k n : ℕ) (xs : List ℕ) → Above k xs → member n xs ≡ true → k < n
unfolding member
Above-member k n [] h m = cc
Above-member k n (x ∷ xs) h m = ground (arith, Above-member k n xs h.1)

same_head :
    (x y : ℕ) (xs ys : List ℕ)
    → IsSorted (x ∷ xs)
    → IsSorted (y ∷ ys)
    → ((n : ℕ) → member n (x ∷ xs) ≡ member n (y ∷ ys))
    → x ≡ y
same_head x y xs ys hx hy h = ground (
  arith,
  h x,
  h y,
  member_head x xs,
  member_head y ys,
  member-cons x y ys,
  member-cons y x xs,
  Above-member x y xs hx.0,
  Above-member y x ys hy.0,
)

-- Two strictly sorted tuples with the same members are one tuple.
pub sorted_unique :
    (xs ys : List ℕ) → IsSorted xs → IsSorted ys → ((n : ℕ) → member n xs ≡ member n ys) → xs ≡ ys
sorted_unique [] [] hx hy h = refl
sorted_unique [] (y ∷ ys) hx hy h = cc (h y, member_head y ys, member-nil y)
sorted_unique (x ∷ xs) [] hx hy h = cc (h x, member_head x xs, member-nil x)
sorted_unique (x ∷ xs) (y ∷ ys) hx hy h =
    let e : x ≡ y = same_head x y xs ys hx hy h in
    cc (
      e,
      sorted_unique xs ys hx.1 hy.1 λ n. ground (
        arith,
        e,
        h n,
        member-cons n x xs,
        member-cons n y ys,
        Above-not_member x xs hx.0,
        Above-not_member y ys hy.0,
      ),
    )

-- A stored tuple passes the test `tuple(sorted(set(values))) != values` just when it is sorted.
pub sorted_test_complete : (xs : List ℕ) → IsSorted xs → same_list (sorted_set xs) xs ≡ true
sorted_test_complete xs h =
    subst (λ ys. same_list ys xs ≡ true) (sym (sorted_set_fixed xs h)) (same_list_refl xs)

pub IsSorted-test_sound : (xs : List ℕ) → same_list (sorted_set xs) xs ≡ true → IsSorted xs
IsSorted-test_sound xs h =
    subst IsSorted (same_list_sound (sorted_set xs) xs h) (sorted_set-IsSorted xs)

-- Two sets with the same members give one tuple.
pub sorted_set_ext :
    (xs ys : List ℕ) → ((n : ℕ) → member n xs ≡ member n ys) → sorted_set xs ≡ sorted_set ys
sorted_set_ext xs ys h =
    sorted_unique (sorted_set xs) (sorted_set ys) (sorted_set-IsSorted xs) (sorted_set-IsSorted ys)
      λ n. member-sorted_set n xs ∙ h n ∙ sym (member-sorted_set n ys)

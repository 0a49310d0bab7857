-- ===== src/IdSet.antt =====
-- Python's sets of network IDs and `tuple(sorted(set(values)))`, as worlds/jak3/location_outbox.py
-- and worlds/jak3/persistence.py use them. A set is a list read through `member`; a tuple of IDs
-- that the program stores is the strictly sorted list of a set.
pub mod Laws
pub mod Order
use jak3_ap.Prelude.{
  ℕ, ◌<◌, ◌≡◌, Bool, true, false, ◌&&◌, ◌||◌, List, [], ◌∷◌, ltb, ◌==◌, if◌then◌else◌, All,
}

-- `n in values`
unfoldable pub member : ℕ → List ℕ → Bool
member n [] = false
member n (x ∷ xs) = n == x || member n xs

-- `a - b` on sets
unfoldable pub difference : List ℕ → List ℕ → List ℕ
difference [] ys = []
difference (x ∷ xs) ys = let rest = difference xs ys in if member x ys then rest else x ∷ rest

-- `a & b` on sets
unfoldable pub intersection : List ℕ → List ℕ → List ℕ
intersection [] ys = []
intersection (x ∷ xs) ys = let rest = intersection xs ys in if member x ys then x ∷ rest else rest

-- `a <= b` on sets
unfoldable pub subset : List ℕ → List ℕ → Bool
subset [] ys = true
subset (x ∷ xs) ys = member x ys && subset xs ys

-- truth of a set is that it has an element
unfoldable pub is_empty : List ℕ → Bool
is_empty [] = true
is_empty (x ∷ xs) = false

-- equality of tuples of IDs
unfoldable pub same_list : List ℕ → List ℕ → Bool
same_list [] [] = true
same_list (x ∷ xs) (y ∷ ys) = x == y && same_list xs ys
same_list _ _ = false

unfoldable pub insert : ℕ → List ℕ → List ℕ
insert n [] = n ∷ []
insert n (x ∷ xs) =
    let rest = insert n xs in if ltb n x then n ∷ x ∷ xs else if n == x then x ∷ xs else x ∷ rest

-- `tuple(sorted(set(values)))`
unfoldable pub sorted_set : List ℕ → List ℕ
unfolding insert
sorted_set [] = []
sorted_set (x ∷ xs) = insert x (sorted_set xs)

-- `tuple(sorted(values))`: equal values stay
unfoldable pub insert_le : ℕ → List ℕ → List ℕ
insert_le n [] = n ∷ []
insert_le n (x ∷ xs) = let rest = insert_le n xs in if ltb x n then x ∷ rest else n ∷ x ∷ xs

unfoldable pub sort : List ℕ → List ℕ
unfolding insert_le
sort [] = []
sort (x ∷ xs) = insert_le x (sort xs)

-- the strictly increasing lists
abbrev pub Above : ℕ → List ℕ → Type 0
Above n = All (λ x. n < x)

abbrev pub IsSorted : List ℕ → Type 0
IsSorted [] = Unit
IsSorted (x ∷ xs) = Above x xs × IsSorted xs

-- every element of the first is one of the second
abbrev pub Subset : List ℕ → List ℕ → Type 0
Subset xs ys = (n : ℕ) → member n xs ≡ true → member n ys ≡ true

-- ===== src/ReceivedItems/Counts.antt =====
-- The stored counts are the numbers of journal entries of each item, and the native target mask
-- shows the items that have been received.
use Prim.Native.Nat.{bit_or}
use jak3_ap.Prelude.{
  ℕ, suc, ◌+◌, ◌<◌, ◌≡◌, refl, Bool, true, false, List, [], ◌∷◌, arith, ◌==◌, ltb, if◌then◌else◌,
  All, Bool-cases, inl, inr,
}
use jak3_ap.Persistence.State.{ReceivedItemJournalEntry, PersistentState}
use jak3_ap.Persistence.Identity.{Platform}
use jak3_ap.Persistence.Journal.{bump, item_counts}
use jak3_ap.Outbox.Transition.{IsValid}
use jak3_ap.ReceivedItems.{
  jetboard_item_id, blaster_item_id, progressive_armor_item_id, count_of,
  permanent_item_target_mask,
}
use jak3_ap.ReceivedItems.Journal.{valid-IsConsistent}

-- the number of entries of an item
unfoldable pub occurrences : ℕ → List ReceivedItemJournalEntry → ℕ
occurrences i [] = 0
occurrences i (e ∷ journal) =
    let rest = occurrences i journal in if i == e.item_id then suc rest else rest

abbrev KeysAbove : ℕ → List (ℕ × ℕ) → Type 0
KeysAbove n = All (λ (c : ℕ × ℕ). n < c.0)

abbrev KeysSorted : List (ℕ × ℕ) → Type 0
KeysSorted [] = Unit
KeysSorted ((i, c) ∷ counts) = KeysAbove i counts × KeysSorted counts

keys_trans : (m n : ℕ) (counts : List (ℕ × ℕ)) → m < n → KeysAbove n counts → KeysAbove m counts
keys_trans m n [] lt h = tt
keys_trans m n ((j, c) ∷ counts) lt h = (omega arith, keys_trans m n counts lt h.1)

KeysAbove-bump :
    (m i : ℕ) (counts : List (ℕ × ℕ)) → m < i → KeysAbove m counts → KeysAbove m (bump i counts)
unfolding bump
KeysAbove-bump m i [] lt h = (lt, tt)
KeysAbove-bump m i ((j, c) ∷ counts) lt h = ground (arith, KeysAbove-bump m i counts lt h.1)

KeysSorted-bump : (i : ℕ) (counts : List (ℕ × ℕ)) → KeysSorted counts → KeysSorted (bump i counts)
unfolding bump
KeysSorted-bump i [] h = (tt, tt)
KeysSorted-bump i ((j, c) ∷ counts) h = elim (Bool-cases (ltb i j)) [
  | inl lt ↦ rw lt ((ground arith, keys_trans i j counts (ground arith) h.0), h)
  | inr ge ↦ rw ge (elim (Bool-cases (i == j)) [
    | inl e ↦ rw e h
    | inr ne ↦ rw ne (KeysAbove-bump j i counts (ground arith) h.0, KeysSorted-bump i counts h.1)
  ])
]

KeysSorted-item_counts :
    (journal : List ReceivedItemJournalEntry) → KeysSorted (item_counts journal)
unfolding item_counts
KeysSorted-item_counts [] = tt
KeysSorted-item_counts (e ∷ journal) =
    KeysSorted-bump e.item_id (item_counts journal) (KeysSorted-item_counts journal)

count_of-above : (i : ℕ) (counts : List (ℕ × ℕ)) → KeysAbove i counts → count_of i counts ≡ 0
unfolding count_of
count_of-above i [] h = refl
count_of-above i ((j, c) ∷ counts) h = ground (arith, count_of-above i counts h.1)

count_of-below :
    (i j : ℕ) (counts : List (ℕ × ℕ)) → i < j → KeysAbove j counts → count_of i counts ≡ 0
count_of-below i j counts lt h = count_of-above i counts (keys_trans i j counts lt h)

count_of-bump :
    (i k : ℕ) (counts : List (ℕ × ℕ))
    → KeysSorted counts
    → count_of i (bump k counts) ≡ (if i == k then suc (count_of i counts) else count_of i counts)
unfolding count_of bump
count_of-bump i k [] h = ground arith
count_of-bump i k ((j, c) ∷ counts) h =
    ground (arith, count_of-bump i k counts h.1, count_of-below k j counts)

count_of-item_counts :
    (i : ℕ) (journal : List ReceivedItemJournalEntry)
    → count_of i (item_counts journal) ≡ occurrences i journal
unfolding item_counts occurrences
count_of-item_counts i [] = unfold count_of in refl
count_of-item_counts i (e ∷ journal) = ground (
  arith,
  count_of-bump i e.item_id (item_counts journal) (KeysSorted-item_counts journal),
  count_of-item_counts i journal,
)

-- In a valid state the stored count of every item is the number of its entries in the journal.
pub counts_exact :
    (p : Platform) (s : PersistentState)
    → IsValid p s
    → (i : ℕ) → count_of i s.received_item_counts ≡ occurrences i s.received_item_journal
counts_exact p s v i =
    rw (valid-IsConsistent p s v).counts_are (count_of-item_counts i s.received_item_journal)

-- the target mask as a sum, from the journal alone
unfoldable pub target_of : List ReceivedItemJournalEntry → ℕ
unfolding occurrences
target_of journal =
    (if ltb 0 (occurrences jetboard_item_id journal) then 1 else 0)
    + (if ltb 0 (occurrences blaster_item_id journal) then 2 else 0)
    + (if ltb 0 (occurrences progressive_armor_item_id journal) then 4 else 0)

mask_bits :
    (a b c : Bool)
    → (let m : ℕ = if a then bit_or 0 1 else 0 in
        let n : ℕ = if b then bit_or m 2 else m in if c then bit_or n 4 else n)
      ≡ (if a then 1 else 0) + (if b then 2 else 0) + (if c then 4 else 0)
mask_bits true true true = refl
mask_bits true true false = refl
mask_bits true false true = refl
mask_bits true false false = refl
mask_bits false true true = refl
mask_bits false true false = refl
mask_bits false false true = refl
mask_bits false false false = refl

-- In a valid state the target mask has bit 1, 2 and 4 exactly if the journal has an entry of the
-- Jetboard, the Blaster and the progressive Armor.
pub permanent_item_target_mask_lem :
    (p : Platform) (s : PersistentState)
    → IsValid p s
    → permanent_item_target_mask s ≡ target_of s.received_item_journal
unfolding permanent_item_target_mask target_of
permanent_item_target_mask_lem p s v =
    rw
      (
        counts_exact p s v jetboard_item_id,
        counts_exact p s v blaster_item_id,
        counts_exact p s v progressive_armor_item_id,
      )
      (mask_bits _ _ _)

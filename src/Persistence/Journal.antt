-- ===== src/Persistence/Journal.antt =====
-- The checks of `validate_state` (worlds/jak3/persistence.py) on the received-item journal, its
-- counts and its pending indices.
pub mod Consistent
use jak3_ap.Prelude.{
  ℕ, ◌+◌, suc, Bool, true, false, ◌&&◌, List, [], ◌∷◌, ltb, leb, ◌==◌, length, ℤ, nat_abs, Result,
  ok, corruption, compatibility, ◌>>◌, require, if◌then◌else◌, all,
}
use jak3_ap.IdSet.{member, same_list, sorted_set}
use jak3_ap.Registry.{item_ids}
use jak3_ap.Persistence.State.{ReceivedItemState, ReceivedItemJournalEntry}

-- `(1 << 53) - 1`
abbrev pub network_id_absolute_limit : ℕ
network_id_absolute_limit = 9007199254740991

unfoldable pub is_pending : ReceivedItemState → Bool
is_pending ReceivedItemState.pending = true
is_pending _ = false

-- `counts[id] += 1`, on the counts in the order of their sorted items
unfoldable pub bump : ℕ → List (ℕ × ℕ) → List (ℕ × ℕ)
bump i [] = (i, 1) ∷ []
bump i ((j, c) ∷ counts) =
    let rest = bump i counts in
    if ltb i j
    then (i, 1) ∷ (j, c) ∷ counts
    else if i == j
    then (j, c + 1) ∷ counts
    else (j, c) ∷ rest

-- `tuple(sorted(Counter(entry.item_id for entry in journal).items()))`
unfoldable pub item_counts : List ReceivedItemJournalEntry → List (ℕ × ℕ)
unfolding bump
item_counts [] = []
item_counts (e ∷ journal) = bump e.item_id (item_counts journal)

-- the indices of the pending entries
unfoldable pub pending_indices : List ReceivedItemJournalEntry → List ℕ
unfolding is_pending
pending_indices [] = []
pending_indices (e ∷ journal) =
    let rest = pending_indices journal in if is_pending e.state then e.index ∷ rest else rest

-- `_validate_network_location_id`
unfoldable pub validate_network_location_id : ℤ → Result (Unit {0})
validate_network_location_id n = require (leb (nat_abs n) network_id_absolute_limit) corruption

-- the body of the loop over the journal
unfoldable pub validate_entry : ℕ → ReceivedItemJournalEntry → Result (Unit {0})
unfolding validate_network_location_id
validate_entry expected_index e = do
  require (e.index == expected_index) corruption
  require (member e.item_id item_ids) compatibility
  validate_network_location_id e.location_id

unfoldable pub validate_entries : ℕ → List ReceivedItemJournalEntry → Result (Unit {0})
unfolding validate_entry
validate_entries expected_index [] = ok tt
validate_entries expected_index (e ∷ journal) =
    validate_entry expected_index e >> validate_entries (suc expected_index) journal

-- the loop over the counts
unfoldable pub validate_count_ids : List (ℕ × ℕ) → Result (Unit {0})
validate_count_ids [] = ok tt
validate_count_ids ((i, c) ∷ counts) =
    require (member i item_ids) compatibility >> validate_count_ids counts

unfoldable pub same_counts : List (ℕ × ℕ) → List (ℕ × ℕ) → Bool
same_counts [] [] = true
same_counts ((i, c) ∷ xs) ((j, d) ∷ ys) = i == j && c == d && same_counts xs ys
same_counts _ _ = false

unfoldable pub validate_journal :
    ℕ → List ReceivedItemJournalEntry → List (ℕ × ℕ) → List ℕ → Result (Unit {0})
unfolding validate_entries validate_count_ids same_counts item_counts pending_indices
validate_journal next journal counts pending = do
  require (next == length journal) corruption
  validate_entries 0 journal
  validate_count_ids counts
  require (same_counts counts (item_counts journal)) corruption
  require (same_list (sorted_set pending) pending) corruption
  require (all (λ i. ltb i next) pending) compatibility
  require (same_list pending (pending_indices journal)) corruption

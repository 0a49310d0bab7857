-- ===== src/Persistence/Journal/Consistent.antt =====
-- What the journal checks of `validate_state` accept: contiguous indices and known items, with the
-- counts and the pending indices that the journal determines.
use jak3_ap.Prelude.{
  ℕ, suc, ◌+◌, ◌≤◌, ◌<◌, ◌≡◌, refl, subst, ◌↔◌, true, List, [], ◌∷◌, ◌++◌, arith, length, all,
  nat_abs, ok, ltb,
}
use jak3_ap.IdSet.{member, same_list, Above, IsSorted}
use jak3_ap.IdSet.Laws.{same_list_sound, same_list_refl}
use jak3_ap.IdSet.Order.{sorted_test_complete}
use jak3_ap.Registry.{item_ids}
use jak3_ap.Persistence.State.{ReceivedItemJournalEntry}
use jak3_ap.Persistence.Journal.{
  network_id_absolute_limit, bump, item_counts, pending_indices, validate_entries,
  validate_count_ids, same_counts, validate_journal,
}

abbrev pub EntryFits : ℕ → ReceivedItemJournalEntry → Type 0
EntryFits k e =
    (e.index ≡ k)
    × (member e.item_id item_ids ≡ true)
    × (nat_abs e.location_id ≤ network_id_absolute_limit)

-- the entries stand at `k`, `k + 1`, …
abbrev pub EntriesFit : ℕ → List ReceivedItemJournalEntry → Type 0
EntriesFit k [] = Unit
EntriesFit k (e ∷ journal) = EntryFits k e × EntriesFit (suc k) journal

pub record IsConsistent (next : ℕ) (journal : List ReceivedItemJournalEntry) (counts : List (ℕ × ℕ))
    (pending : List ℕ) : Type 0 where
  pub length_is : next ≡ length journal
  pub entries_fit : EntriesFit 0 journal
  pub counts_are : counts ≡ item_counts journal
  pub pending_are : pending ≡ pending_indices journal

entries_complete :
    (k : ℕ) (journal : List ReceivedItemJournalEntry)
    → EntriesFit k journal
    → validate_entries k journal ≡ ok tt
unfolding validate_entries
entries_complete k [] h = refl
entries_complete k (e ∷ journal) (f, r) = ground (arith, entries_complete (suc k) journal r)

entries_sound :
    (k : ℕ) (journal : List ReceivedItemJournalEntry)
    → validate_entries k journal ≡ ok tt
    → EntriesFit k journal
unfolding validate_entries
entries_sound k [] h = tt
entries_sound k (e ∷ journal) h =
    ((ground arith, ground arith, ground arith), entries_sound (suc k) journal (ground arith))

pub EntriesFit-append :
    (k : ℕ) (xs ys : List ReceivedItemJournalEntry)
    → EntriesFit k xs
    → EntriesFit (k + length xs) ys
    → EntriesFit k (xs ++ ys)
EntriesFit-append k [] ys h g = subst (λ n. EntriesFit n ys) (omega arith) g
EntriesFit-append k (x ∷ xs) ys h g =
    (h.0, EntriesFit-append (suc k) xs ys h.1 (subst (λ n. EntriesFit n ys) (omega arith) g))

-- the counted items are known items
count_ids-bump :
    (i : ℕ) (counts : List (ℕ × ℕ))
    → member i item_ids ≡ true
    → validate_count_ids counts ≡ ok tt
    → validate_count_ids (bump i counts) ≡ ok tt
unfolding validate_count_ids bump
count_ids-bump i [] m h = rw m
count_ids-bump i ((j, c) ∷ counts) m h = ground (arith, count_ids-bump i counts m)

count_ids-item_counts :
    (k : ℕ) (journal : List ReceivedItemJournalEntry)
    → EntriesFit k journal
    → validate_count_ids (item_counts journal) ≡ ok tt
unfolding item_counts
count_ids-item_counts k [] h = unfold validate_count_ids in refl
count_ids-item_counts k (e ∷ journal) (f, r) =
    count_ids-bump e.item_id (item_counts journal) f.1 (count_ids-item_counts (suc k) journal r)

pub same_counts_refl : (counts : List (ℕ × ℕ)) → same_counts counts counts ≡ true
unfolding same_counts
same_counts_refl [] = refl
same_counts_refl ((i, c) ∷ counts) = ground (arith, same_counts_refl counts)

pub same_counts_sound : (xs ys : List (ℕ × ℕ)) → same_counts xs ys ≡ true → xs ≡ ys
unfolding same_counts
same_counts_sound [] [] h = refl
same_counts_sound [] (y ∷ ys) h = cc
same_counts_sound (x ∷ xs) [] h = cc
same_counts_sound ((i, c) ∷ xs) ((j, d) ∷ ys) h = ground (arith, same_counts_sound xs ys)

-- the pending indices lie between the first index and the end, in order
Above-suc : (k : ℕ) (xs : List ℕ) → Above (suc k) xs → Above k xs
Above-suc k [] h = tt
Above-suc k (x ∷ xs) h = (omega arith, Above-suc k xs h.1)

pending-Above :
    (b k : ℕ) (journal : List ReceivedItemJournalEntry)
    → b < k
    → EntriesFit k journal
    → Above b (pending_indices journal)
unfolding pending_indices
pending-Above b k [] lt h = tt
pending-Above b k (e ∷ journal) lt (f, r) =
    ground (arith, pending-Above b (suc k) journal (omega arith) r)

pub pending-IsSorted :
    (k : ℕ) (journal : List ReceivedItemJournalEntry)
    → EntriesFit k journal
    → IsSorted (pending_indices journal)
unfolding pending_indices
pending-IsSorted k [] h = tt
pending-IsSorted k (e ∷ journal) (f, r) = ground (
  arith,
  pending-IsSorted (suc k) journal r,
  pending-Above e.index (suc k) journal (omega arith) r,
)

pending_below :
    (k n : ℕ) (journal : List ReceivedItemJournalEntry)
    → EntriesFit k journal
    → k + length journal ≤ n
    → all (λ i. ltb i n) (pending_indices journal) ≡ true
unfolding pending_indices
pending_below k n [] h le = refl
pending_below k n (e ∷ journal) (f, r) le =
    ground (arith, pending_below (suc k) n journal r (omega arith))

consistent_tests :
    (n : ℕ) (j : List ReceivedItemJournalEntry) (c : List (ℕ × ℕ)) (p : List ℕ)
    → validate_journal n j c p ≡ ok tt
    → (n ≡ length j)
      × (validate_entries 0 j ≡ ok tt)
      × (same_counts c (item_counts j) ≡ true)
      × (same_list p (pending_indices j) ≡ true)
unfolding validate_journal
consistent_tests n j c p h = ground arith

pub validate_journal_complete :
    (journal : List ReceivedItemJournalEntry)
    → EntriesFit 0 journal
    → validate_journal (length journal) journal (item_counts journal) (pending_indices journal)
      ≡ ok tt
unfolding validate_journal
validate_journal_complete j h = ground (
  arith,
  entries_complete 0 j h,
  count_ids-item_counts 0 j h,
  same_counts_refl (item_counts j),
  sorted_test_complete (pending_indices j) (pending-IsSorted 0 j h),
  pending_below 0 (length j) j h (omega arith),
  same_list_refl (pending_indices j),
)

-- The journal checks pass exactly when the indices are 0, 1, …, the items are known, and the
-- count of the entries, the item counts and the pending indices are those of the journal.
pub validate_journal_iff :
    (next : ℕ) (journal : List ReceivedItemJournalEntry) (counts : List (ℕ × ℕ)) (pending : List ℕ)
    → (validate_journal next journal counts pending ≡ ok tt)
      ↔ IsConsistent next journal counts pending
validate_journal_iff n j c p = (
  λ h.
      let t = consistent_tests n j c p h in
      record {
        length_is = t.0;
        entries_fit = entries_sound 0 j t.1;
        counts_are = same_counts_sound c (item_counts j) t.2;
        pending_are = same_list_sound p (pending_indices j) t.3;
      },
  λ h. rw (h.length_is, h.counts_are, h.pending_are) (validate_journal_complete j h.entries_fit),
)

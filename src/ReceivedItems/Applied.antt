-- ===== src/ReceivedItems/Applied.antt =====
-- `mark_pending_items_applied` on a valid state.
use jak3_ap.Prelude.{
  ℕ, suc, ◌≡◌, ◌≢◌, refl, ap, sym, ◌∙◌, some, List, [], ◌∷◌, arith, ok, length, false,
}
use jak3_ap.Persistence.State.{
  ReceivedItemState, ReceivedItemJournalEntry, GameCommandReceipt, PersistentState,
}
use jak3_ap.Persistence.Identity.{Platform}
use jak3_ap.Persistence.Journal.{is_pending, item_counts, pending_indices}
use jak3_ap.Persistence.Journal.Consistent.{EntriesFit, IsConsistent, validate_journal_iff}
use jak3_ap.Persistence.Validate.{
  validate_state, validate_header, validate_application, validate_footer, validate_receipt,
  post_init,
}
use jak3_ap.Outbox.Transition.{IsValid}
use jak3_ap.ReceivedItems.{
  apply_entry, apply_entries, mark_pending_items_applied, permanent_item_target_mask,
}
use jak3_ap.ReceivedItems.Journal.{valid-IsConsistent}

item_id-apply_entry : (e : ReceivedItemJournalEntry) → (apply_entry e).item_id ≡ e.item_id
unfolding apply_entry
item_id-apply_entry e = ground arith

item_counts-apply_entries :
    (journal : List ReceivedItemJournalEntry)
    → item_counts (apply_entries journal) ≡ item_counts journal
unfolding item_counts apply_entries
item_counts-apply_entries [] = refl
item_counts-apply_entries (e ∷ journal) =
    rw (item_id-apply_entry e, item_counts-apply_entries journal)

length-apply_entries :
    (journal : List ReceivedItemJournalEntry) → length (apply_entries journal) ≡ length journal
unfolding apply_entries
length-apply_entries [] = refl
length-apply_entries (e ∷ journal) = ap suc (length-apply_entries journal)

not_pending : (e : ReceivedItemJournalEntry) → is_pending (apply_entry e).state ≡ false
unfolding apply_entry is_pending
not_pending e = ground arith

pub pending-apply_entries :
    (journal : List ReceivedItemJournalEntry) → pending_indices (apply_entries journal) ≡ []
unfolding pending_indices apply_entries
pending-apply_entries [] = refl
pending-apply_entries (e ∷ journal) = rw (not_pending e) (pending-apply_entries journal)

EntriesFit-apply_entries :
    (k : ℕ) (journal : List ReceivedItemJournalEntry)
    → EntriesFit k journal
    → EntriesFit k (apply_entries journal)
unfolding apply_entries apply_entry
EntriesFit-apply_entries k [] h = tt
EntriesFit-apply_entries k (e ∷ journal) h =
    (ground arith, EntriesFit-apply_entries (suc k) journal h.1)

-- the state after the reconciliation
applied_state : PersistentState → GameCommandReceipt → PersistentState
applied_state s receipt = record s {
  received_item_journal = apply_entries s.received_item_journal;
  pending_item_application_indices = [];
  last_observed_game_command_receipt = some receipt;
}

applied-IsConsistent :
    (s : PersistentState)
    → IsConsistent s.next_received_item_index s.received_item_journal s.received_item_counts
        s.pending_item_application_indices
    → IsConsistent s.next_received_item_index
        (apply_entries s.received_item_journal)
        s.received_item_counts
        []
applied-IsConsistent s c = record {
  length_is = c.length_is ∙ sym (length-apply_entries s.received_item_journal);
  entries_fit = EntriesFit-apply_entries 0 s.received_item_journal c.entries_fit;
  counts_are = c.counts_are ∙ sym (item_counts-apply_entries s.received_item_journal);
  pending_are = sym (pending-apply_entries s.received_item_journal);
}

applied-IsValid :
    (p : Platform) (s : PersistentState) (receipt : GameCommandReceipt)
    → IsValid p s
    → validate_receipt (some receipt) ≡ ok tt
    → IsValid p (applied_state s receipt)
unfolding validate_state applied_state validate_header validate_application validate_footer
applied-IsValid p s receipt v r = ground (
  arith,
  (validate_journal_iff s.next_received_item_index (apply_entries s.received_item_journal)
        s.received_item_counts []).1
      (applied-IsConsistent s (valid-IsConsistent p s v)),
)

mark_lem :
    (p : Platform) (s : PersistentState) (receipt : GameCommandReceipt)
    → IsValid p (applied_state s receipt)
    → mark_pending_items_applied p s receipt ≡ ok (applied_state s receipt)
unfolding mark_pending_items_applied post_init applied_state
mark_lem p s receipt v = rw v

-- what becomes of an entry of the journal
pub data IsMarked (e : ReceivedItemJournalEntry) : ReceivedItemJournalEntry → Type 0 where
  now_applied :
      e.state ≡ ReceivedItemState.pending
      → IsMarked e (record e { state = ReceivedItemState.applied })
  as_it_was : e.state ≢ ReceivedItemState.pending → IsMarked e e

-- what becomes of the journal, entry by entry
pub data Marked : List ReceivedItemJournalEntry → List ReceivedItemJournalEntry → Type 0 where
  no_entry : Marked [] []
  each_entry :
      {e e' : ReceivedItemJournalEntry} {journal journal' : List ReceivedItemJournalEntry}
      → IsMarked e e'
      → Marked journal journal'
      → Marked (e ∷ journal) (e' ∷ journal')

apply_entry-IsMarked :
    (e : ReceivedItemJournalEntry) (state : ReceivedItemState)
    → e.state ≡ state
    → IsMarked e (apply_entry e)
unfolding apply_entry is_pending
apply_entry-IsMarked e ReceivedItemState.received h = rw h (as_it_was (λ q. cc))
apply_entry-IsMarked e ReceivedItemState.pending h = rw h (now_applied refl)
apply_entry-IsMarked e ReceivedItemState.applied h = rw h (as_it_was (λ q. cc))

apply_entries-Marked :
    (journal : List ReceivedItemJournalEntry) → Marked journal (apply_entries journal)
unfolding apply_entries
apply_entries-Marked [] = no_entry
apply_entries-Marked (e ∷ journal) =
    each_entry (apply_entry-IsMarked e e.state refl) (apply_entries-Marked journal)

-- On a valid state, marking with a receipt of valid texts returns a valid state in which nothing is
-- pending and the receipt is stored, with the counts and so the target mask as they were. The
-- journals agree entry by entry, except that the state of each pending entry has become applied.
pub mark_pending_items_applied_lem :
    (p : Platform) (s : PersistentState) (receipt : GameCommandReceipt)
    → IsValid p s
    → validate_receipt (some receipt) ≡ ok tt
    → (t : PersistentState) × (mark_pending_items_applied p s receipt ≡ ok t)
      × IsValid p t
      × (pending_indices t.received_item_journal ≡ [])
      × Marked s.received_item_journal t.received_item_journal
      × (t.last_observed_game_command_receipt ≡ some receipt)
      × (permanent_item_target_mask t ≡ permanent_item_target_mask s)
mark_pending_items_applied_lem p s receipt v r = (
  applied_state s receipt,
  mark_lem p s receipt (applied-IsValid p s receipt v r),
  applied-IsValid p s receipt v r,
  unfold applied_state in pending-apply_entries s.received_item_journal,
  unfold applied_state in apply_entries-Marked s.received_item_journal,
  unfold applied_state in refl,
  unfold applied_state permanent_item_target_mask in refl,
)

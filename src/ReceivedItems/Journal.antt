-- ===== src/ReceivedItems/Journal.antt =====
-- A valid state with another journal of fitting entries is valid.
use jak3_ap.Prelude.{◌≡◌, ok, List, arith}
use jak3_ap.Persistence.State.{ReceivedItemJournalEntry, PersistentState}
use jak3_ap.Persistence.Identity.{Platform}
use jak3_ap.Persistence.Journal.Consistent.{
  EntriesFit, IsConsistent, validate_journal_iff, validate_journal_complete,
}
use jak3_ap.Persistence.Validate.{
  validate_state, validate_header, validate_application, validate_footer, post_init,
}
use jak3_ap.Outbox.Transition.{IsValid}
use jak3_ap.ReceivedItems.{with_received_item_journal}

pub valid-IsConsistent :
    (p : Platform) (s : PersistentState)
    → IsValid p s
    → IsConsistent s.next_received_item_index s.received_item_journal s.received_item_counts
        s.pending_item_application_indices
unfolding validate_state
valid-IsConsistent p s v =
    (validate_journal_iff s.next_received_item_index s.received_item_journal s.received_item_counts
        s.pending_item_application_indices).0
      (ground arith)

pub with_received_item_journal-IsValid :
    (p : Platform) (s : PersistentState) (journal : List ReceivedItemJournalEntry)
    → IsValid p s
    → EntriesFit 0 journal
    → IsValid p (with_received_item_journal s journal)
unfolding validate_state with_received_item_journal validate_header validate_application
    validate_footer
with_received_item_journal-IsValid p s journal v h =
    ground (arith, validate_journal_complete journal h)

pub journal-post_init :
    (p : Platform) (s : PersistentState) (journal : List ReceivedItemJournalEntry)
    → IsValid p s
    → EntriesFit 0 journal
    → post_init p (with_received_item_journal s journal) ≡ ok (with_received_item_journal s journal)
unfolding post_init
journal-post_init p s journal v h = rw (with_received_item_journal-IsValid p s journal v h)

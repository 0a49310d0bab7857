-- ===== src/ReceivedItems.antt =====
-- worlds/jak3/received_items.py: the indexed receipt ledger and the native item targets.
pub mod Journal
pub mod Apply
pub mod Redelivery
pub mod Counts
pub mod Applied
pub mod Intake
pub mod Parse
use Prim.Native.Nat.{bit_or, min, max}
use jak3_ap.Prelude.{
  ℕ, zero, suc, ◌+◌, ◌-◌, ℤ, pos, negsuc, Bool, true, false, not, ◌&&◌, Option, none, some, List,
  [], ◌∷◌, ◌++◌, ltb, ◌==◌, same_int, if◌then◌else◌, length, get_elem?, take, drop, Result, ok,
  ◌>>=◌,
}
use jak3_ap.IdSet.{member, same_list}
use jak3_ap.Persistence.State.{
  ReceivedItemState, ReceivedItemJournalEntry, GameCommandReceipt, PersistentState,
}
use jak3_ap.Persistence.Identity.{Platform}
use jak3_ap.Persistence.Journal.{is_pending, item_counts, pending_indices, same_counts}
use jak3_ap.Persistence.Validate.{post_init}

abbrev pub jetboard_item_id : ℕ
jetboard_item_id = 743000108

abbrev pub blaster_item_id : ℕ
blaster_item_id = 743010014

abbrev pub progressive_armor_item_id : ℕ
progressive_armor_item_id = 743000116

abbrev pub jetboard_target_bit : ℕ
jetboard_target_bit = 1

abbrev pub blaster_target_bit : ℕ
blaster_target_bit = 2

abbrev pub armor_stage_one_target_bit : ℕ
armor_stage_one_target_bit = 4

unfoldable pub milestone_8_item_ids : List ℕ
milestone_8_item_ids = jetboard_item_id ∷ blaster_item_id ∷ progressive_armor_item_id ∷ []

pub record ReceivedItemsPacket : Type 0 where
  pub index : ℕ
  pub entries : List ReceivedItemJournalEntry

abbrev pub end_index : ReceivedItemsPacket → ℕ
end_index packet = packet.index + length packet.entries

pub data PacketOutcome : Type 0 where
  accepted replaced duplicate gap conflict partial_overlap : PacketOutcome

pub record PacketTransition : Type 0 where
  pub outcome : PacketOutcome
  pub state : PersistentState
  pub changed : Bool
  pub history_discrepancies : List ℕ

-- `_with_received_item_journal`, before the validation of the new object
unfoldable pub with_received_item_journal :
    PersistentState → List ReceivedItemJournalEntry → PersistentState
with_received_item_journal s journal = record s {
  next_received_item_index = length journal;
  received_item_journal = journal;
  received_item_counts = item_counts journal;
  pending_item_application_indices = pending_indices journal;
}

-- `_same_packet_identity`
unfoldable pub same_packet_identity : ReceivedItemJournalEntry → ReceivedItemJournalEntry → Bool
same_packet_identity historical incoming =
    historical.index == incoming.index
    && historical.item_id == incoming.item_id
    && same_int historical.location_id incoming.location_id
    && historical.source_player == incoming.source_player
    && historical.flags == incoming.flags

-- equal lengths, and the same identities in order
unfoldable pub same_identities :
    List ReceivedItemJournalEntry → List ReceivedItemJournalEntry → Bool
unfolding same_packet_identity
same_identities [] [] = true
same_identities (a ∷ xs) (b ∷ ys) = same_packet_identity a b && same_identities xs ys
same_identities _ _ = false

unfoldable pub same_item_state : ReceivedItemState → ReceivedItemState → Bool
same_item_state ReceivedItemState.received ReceivedItemState.received = true
same_item_state ReceivedItemState.pending ReceivedItemState.pending = true
same_item_state ReceivedItemState.applied ReceivedItemState.applied = true
same_item_state _ _ = false

unfoldable pub same_journal : List ReceivedItemJournalEntry → List ReceivedItemJournalEntry → Bool
unfolding same_packet_identity same_item_state
same_journal [] [] = true
same_journal (a ∷ xs) (b ∷ ys) =
    same_packet_identity a b && same_item_state a.state b.state && same_journal xs ys
same_journal _ _ = false

-- `updated == state`: the two differ in the four received-item fields at most
unfoldable pub same_received_items : PersistentState → PersistentState → Bool
unfolding same_journal same_counts same_list
same_received_items a b =
    a.next_received_item_index == b.next_received_item_index
    && same_journal a.received_item_journal b.received_item_journal
    && same_counts a.received_item_counts b.received_item_counts
    && same_list a.pending_item_application_indices b.pending_item_application_indices

-- an entry of the packet takes the application state of the journal's entry at its index, if that
-- is of the same item
keep_state : ReceivedItemJournalEntry → Option ReceivedItemJournalEntry → ReceivedItemJournalEntry
keep_state entry none = entry
keep_state entry (some previous) =
    if previous.item_id == entry.item_id then record entry { state = previous.state } else entry

unfoldable pub rebuild :
    List ReceivedItemJournalEntry → List ReceivedItemJournalEntry → List ReceivedItemJournalEntry
unfolding keep_state
rebuild old [] = []
rebuild old (entry ∷ entries) = keep_state entry (get_elem? old entry.index) ∷ rebuild old entries

is_discrepancy : ReceivedItemJournalEntry → Option ReceivedItemJournalEntry → Bool
is_discrepancy entry none = false
is_discrepancy entry (some previous) = not (previous.item_id == entry.item_id)

unfoldable pub item_discrepancies :
    List ReceivedItemJournalEntry → List ReceivedItemJournalEntry → List ℕ
unfolding is_discrepancy
item_discrepancies old [] = []
item_discrepancies old (entry ∷ entries) =
    let rest = item_discrepancies old entries in
    if is_discrepancy entry (get_elem? old entry.index) then entry.index ∷ rest else rest

-- `range(first, first + count)`
unfoldable pub range_from : ℕ → ℕ → List ℕ
range_from first zero = []
range_from first (suc count) = first ∷ range_from (suc first) count

-- `tuple(dict.fromkeys(values))`, past the values that were seen
unfoldable pub unique : List ℕ → List ℕ → List ℕ
unique seen [] = []
unique seen (x ∷ xs) = elim (member x seen) [
  | true ↦ unique seen xs
  | false ↦ x ∷ unique (x ∷ seen) xs
]

unfoldable pub history_discrepancies :
    List ReceivedItemJournalEntry → List ReceivedItemJournalEntry → List ℕ
unfolding item_discrepancies range_from unique
history_discrepancies old entries =
    let first = min (length old) (length entries) in
    unique [] (
      item_discrepancies old entries
      ++ range_from first (max (length old) (length entries) - first))

-- `_replace_canonical_history`
unfoldable pub replace_canonical_history :
    Platform → PersistentState → ReceivedItemsPacket → Result PacketTransition
unfolding rebuild history_discrepancies with_received_item_journal same_received_items
replace_canonical_history p s packet = do
  let old = s.received_item_journal
  updated ← post_init p (with_received_item_journal s (rebuild old packet.entries))
  ok (record {
    outcome = PacketOutcome.replaced;
    state = updated;
    changed = not (same_received_items updated s);
    history_discrepancies = history_discrepancies old packet.entries;
  })

unfoldable pub keeps : PacketOutcome → PersistentState → PacketTransition
keeps outcome s = record {
  outcome = outcome;
  state = s;
  changed = false;
  history_discrepancies = [];
}

-- `apply_received_items_packet` for the packet at the next index
unfoldable pub accept : Platform → PersistentState → ReceivedItemsPacket → Result PacketTransition
unfolding with_received_item_journal same_received_items
accept p s packet = do
  updated ← post_init p (with_received_item_journal s (s.received_item_journal ++ packet.entries))
  ok (record {
    outcome = PacketOutcome.accepted;
    state = updated;
    changed = not (same_received_items updated s);
    history_discrepancies = [];
  })

unfoldable pub apply_received_items_packet :
    Platform → PersistentState → ReceivedItemsPacket → Result PacketTransition
unfolding keeps
apply_received_items_packet p s packet =
    let expected = s.next_received_item_index in
    let historical = take (length packet.entries) (drop packet.index s.received_item_journal) in
    if packet.index == 0
    then if same_identities s.received_item_journal packet.entries
      then ok (keeps PacketOutcome.duplicate s)
      else replace_canonical_history p s packet
    else if packet.index == expected
    then accept p s packet
    else if ltb expected packet.index
    then ok (keeps PacketOutcome.gap s)
    else if ltb expected (end_index packet)
    then ok (keeps PacketOutcome.partial_overlap s)
    else if same_identities historical packet.entries
    then ok (keeps PacketOutcome.duplicate s)
    else ok (keeps PacketOutcome.conflict s)

-- `counts.get(item_id, 0)`
unfoldable pub count_of : ℕ → List (ℕ × ℕ) → ℕ
count_of i [] = 0
count_of i ((j, c) ∷ counts) = if i == j then c else count_of i counts

unfoldable pub permanent_item_target_mask : PersistentState → ℕ
unfolding count_of
permanent_item_target_mask s =
    let counts = s.received_item_counts in
    let none_yet : ℕ = 0 in
    let with_jetboard =
      if ltb 0 (count_of jetboard_item_id counts)
      then bit_or none_yet jetboard_target_bit
      else none_yet in
    let with_blaster =
      if ltb 0 (count_of blaster_item_id counts)
      then bit_or with_jetboard blaster_target_bit
      else with_jetboard in
    if ltb 0 (count_of progressive_armor_item_id counts)
    then bit_or with_blaster armor_stage_one_target_bit
    else with_blaster

apply_entry : ReceivedItemJournalEntry → ReceivedItemJournalEntry
apply_entry e = if is_pending e.state then record e { state = ReceivedItemState.applied } else e

unfoldable pub apply_entries : List ReceivedItemJournalEntry → List ReceivedItemJournalEntry
unfolding apply_entry is_pending
apply_entries [] = []
apply_entries (e ∷ journal) = apply_entry e ∷ apply_entries journal

unfoldable pub mark_pending_items_applied :
    Platform → PersistentState → GameCommandReceipt → Result PersistentState
unfolding apply_entries
mark_pending_items_applied p s receipt = post_init p (record s {
  received_item_journal = apply_entries s.received_item_journal;
  pending_item_application_indices = [];
  last_observed_game_command_receipt = some receipt;
})

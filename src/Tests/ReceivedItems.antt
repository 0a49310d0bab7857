-- ===== src/Tests/ReceivedItems.antt =====
-- The receipt ledger at concrete inputs.
use jak3_ap.Prelude.{◌≡◌, ◌≤◌, refl, some, [], ◌∷◌, ok, pos, negsuc, ◌↔◌}
use jak3_ap.IdSet.{member}
use jak3_ap.Registry.{item_ids}
use jak3_ap.Value.{Value, Items, Fields}
use jak3_ap.Persistence.State.{ReceivedItemState, GameCommandReceipt, PersistentState}
use jak3_ap.Persistence.Identity.{validate_identity_text}
use jak3_ap.Persistence.Journal.{network_id_absolute_limit, pending_indices, validate_journal}
use jak3_ap.Persistence.Journal.Consistent.{IsConsistent, validate_journal_iff}
use jak3_ap.Persistence.Validate.{validate_receipt}
use jak3_ap.Outbox.Transition.{IsValid}
use jak3_ap.ReceivedItems.{
  ReceivedItemsPacket, end_index, PacketTransition, milestone_8_item_ids, count_of,
  apply_received_items_packet, permanent_item_target_mask, mark_pending_items_applied,
}
use jak3_ap.ReceivedItems.Parse.{
  parsed, parse_received_items_packet, parse_entries, parse_entry, count_items,
}
use jak3_ap.ReceivedItems.Parse.Accepts.{NewEntries, parse_received_items_packet_new}
use jak3_ap.ReceivedItems.Apply.{Applied}
use jak3_ap.ReceivedItems.Intake.{receive-Applied, receive_again}
use jak3_ap.ReceivedItems.Counts.{
  occurrences, counts_exact, target_of, permanent_item_target_mask_lem,
}
use jak3_ap.ReceivedItems.Applied.{Marked, mark_pending_items_applied_lem}
use jak3_ap.Tests.Sample.{platform, jetboard, playing, playing-IsValid}

-- { "index": 2, "items": [[743000116, -2, 1, 0]] }
abbrev armor_args : Value
armor_args = Value.dict (
    Fields.field (Value.str "index") (Value.int (pos 2)) (
      Fields.field (Value.str "items")
        (Value.list (
          Items.cons
            (Value.list (
              Items.cons (Value.int (pos 743000116)) (
                Items.cons (Value.int (negsuc 1))
                  (Items.cons (Value.int (pos 1)) (Items.cons (Value.int (pos 0)) Items.nil)))))
            Items.nil))
        Fields.end))

abbrev armor_packet : ReceivedItemsPacket
armor_packet = record {
  index = 2;
  entries =
      (record {
        index = 2;
        item_id = 743000116;
        location_id = negsuc 1;
        source_player = 1;
        flags = 0;
        state = ReceivedItemState.pending;
      })
      ∷ [];
}

armor_parsed : parse_received_items_packet armor_args ≡ parsed armor_packet
unfolding parse_received_items_packet parse_entries parse_entry count_items member item_ids
    milestone_8_item_ids
armor_parsed = refl

parse_received_items_packet_new_example :
    NewEntries armor_packet.index armor_packet.entries
    × (end_index armor_packet ≤ network_id_absolute_limit)
parse_received_items_packet_new_example =
    parse_received_items_packet_new armor_args armor_packet armor_parsed

receive-Applied_example :
    (t : PacketTransition) × (apply_received_items_packet platform playing armor_packet ≡ ok t)
    × IsValid platform t.state
    × Applied playing armor_packet t
receive-Applied_example =
    receive-Applied platform playing armor_args armor_packet playing-IsValid armor_parsed

receive_again_example :
    (t t' : PacketTransition) × (apply_received_items_packet platform playing armor_packet ≡ ok t)
    × (apply_received_items_packet platform t.state armor_packet ≡ ok t')
    × (t'.state ≡ t.state)
receive_again_example =
    receive_again platform playing armor_args armor_packet playing-IsValid armor_parsed

counts_exact_example :
    count_of 743010014 playing.received_item_counts
    ≡ occurrences 743010014 playing.received_item_journal
counts_exact_example = counts_exact platform playing playing-IsValid 743010014

permanent_item_target_mask_lem_example :
    permanent_item_target_mask playing ≡ target_of playing.received_item_journal
permanent_item_target_mask_lem_example =
    permanent_item_target_mask_lem platform playing playing-IsValid

target_of-playing : target_of playing.received_item_journal ≡ 3
unfolding target_of
target_of-playing = refl

abbrev receipt : GameCommandReceipt
receipt = record {
  command_id = "command-4";
  command_kind = "reconcile_permanent_items";
  result = "applied";
}

receipt_valid : validate_receipt (some receipt) ≡ ok tt
unfolding validate_receipt validate_identity_text
receipt_valid = refl

mark_pending_items_applied_lem_example :
    (t : PersistentState) × (mark_pending_items_applied platform playing receipt ≡ ok t)
    × IsValid platform t
    × (pending_indices t.received_item_journal ≡ [])
    × Marked playing.received_item_journal t.received_item_journal
    × (t.last_observed_game_command_receipt ≡ some receipt)
    × (permanent_item_target_mask t ≡ permanent_item_target_mask playing)
mark_pending_items_applied_lem_example =
    mark_pending_items_applied_lem platform playing receipt playing-IsValid receipt_valid

validate_journal_iff_example :
    (validate_journal 1 (jetboard ∷ []) ((743000108, 1) ∷ []) [] ≡ ok tt)
    ↔ IsConsistent 1 (jetboard ∷ []) ((743000108, 1) ∷ []) []
validate_journal_iff_example = validate_journal_iff 1 (jetboard ∷ []) ((743000108, 1) ∷ []) []

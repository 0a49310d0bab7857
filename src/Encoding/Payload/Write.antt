-- ===== src/Encoding/Payload/Write.antt =====
-- `PersistentState.to_payload` of worlds/jak3/persistence.py, and the values that it writes.
use jak3_ap.Prelude.{ℕ, pos, String, Option, none, some, List, [], ◌∷◌}
use jak3_ap.Value.{Value, Items, Fields}
use jak3_ap.Persistence.State.{
  ReceivedItemState, ReceivedItemJournalEntry, GameCommandReceipt, PersistentState,
}
use jak3_ap.Encoding.Json.{Library}

unfoldable pub fields_of : List (String × Value) → Fields
fields_of [] = Fields.end
fields_of ((key, v) ∷ fields) = Fields.field (Value.str key) v (fields_of fields)

unfoldable pub optional_text_value : Option String → Value
optional_text_value none = Value.null
optional_text_value (some s) = Value.str s

unfoldable pub optional_nat_value : Option ℕ → Value
optional_nat_value none = Value.null
optional_nat_value (some n) = Value.int (pos n)

unfoldable pub optional_value : Option Value → Value
optional_value none = Value.null
optional_value (some v) = v

unfoldable pub nat_items : List ℕ → Items
nat_items [] = Items.nil
nat_items (n ∷ ns) = Items.cons (Value.int (pos n)) (nat_items ns)

unfoldable pub value_items : List Value → Items
value_items [] = Items.nil
value_items (v ∷ vs) = Items.cons v (value_items vs)

unfoldable pub state_text : ReceivedItemState → String
state_text ReceivedItemState.received = "received"
state_text ReceivedItemState.pending = "pending"
state_text ReceivedItemState.applied = "applied"

unfoldable pub entry_fields : ReceivedItemJournalEntry → Fields
unfolding state_text
entry_fields e = Fields.field (Value.str "index") (Value.int (pos e.index)) (
    Fields.field (Value.str "item_id") (Value.int (pos e.item_id)) (
      Fields.field (Value.str "location_id") (Value.int e.location_id) (
        Fields.field (Value.str "source_player") (Value.int (pos e.source_player)) (
          Fields.field (Value.str "flags") (Value.int (pos e.flags))
            (Fields.field (Value.str "state") (Value.str (state_text e.state)) Fields.end)))))

unfoldable pub journal_items : List ReceivedItemJournalEntry → Items
unfolding entry_fields
journal_items [] = Items.nil
journal_items (e ∷ journal) = Items.cons (Value.dict (entry_fields e)) (journal_items journal)

unfoldable pub receipt_fields : GameCommandReceipt → Fields
receipt_fields r = Fields.field (Value.str "command_id") (Value.str r.command_id) (
    Fields.field (Value.str "command_kind") (Value.str r.command_kind)
      (Fields.field (Value.str "result") (Value.str r.result) Fields.end))

unfoldable pub receipt_value : Option GameCommandReceipt → Value
unfolding receipt_fields
receipt_value none = Value.null
receipt_value (some r) = Value.dict (receipt_fields r)

unfoldable pub count_fields : Library → List (ℕ × ℕ) → Fields
count_fields lib [] = Fields.end
count_fields lib ((item_id, count) ∷ counts) =
    Fields.field (Value.str (lib.decimal item_id)) (Value.int (pos count)) (count_fields lib counts)

unfoldable pub to_payload : Library → PersistentState → Fields
unfolding fields_of optional_text_value optional_nat_value optional_value nat_items value_items
    journal_items receipt_value count_fields
to_payload lib s = fields_of (
    ("state_instance_id", Value.str s.state_instance_id)
    ∷ ("state_revision", Value.int (pos s.state_revision))
    ∷ ("state_schema_version", Value.int (pos s.state_schema_version))
    ∷ ("protocol_version", Value.int (pos s.protocol_version))
    ∷ ("game_integration_version", Value.int (pos s.game_integration_version))
    ∷ ("slot_data_version", Value.int (pos s.slot_data_version))
    ∷ ("item_table_hash", Value.str s.item_table_hash)
    ∷ ("location_table_hash", Value.str s.location_table_hash)
    ∷ ("mission_table_hash", Value.str s.mission_table_hash)
    ∷ ("resolved_options_hash", Value.str s.resolved_options_hash)
    ∷ ("design_version", Value.str s.design_version)
    ∷ ("seed_identifier", optional_text_value s.seed_identifier)
    ∷ ("team", optional_nat_value s.team)
    ∷ ("slot", optional_nat_value s.slot)
    ∷ ("slot_name", optional_text_value s.slot_name)
    ∷ ("native_save_slot", Value.int (pos s.native_save_slot))
    ∷ ("native_save_identity", Value.str s.native_save_identity)
    ∷ ("next_received_item_index", Value.int (pos s.next_received_item_index))
    ∷ ("received_item_journal", Value.list (journal_items s.received_item_journal))
    ∷ ("received_item_counts", Value.dict (count_fields lib s.received_item_counts))
    ∷ (
      "pending_item_application_indices",
      Value.list (nat_items s.pending_item_application_indices),
    )
    ∷ ("game_application_journal_version", Value.int (pos s.game_application_journal_version))
    ∷ ("last_observed_game_command_receipt", receipt_value s.last_observed_game_command_receipt)
    ∷ ("checked_location_bits", Value.list (nat_items s.checked_location_bits))
    ∷ ("server_confirmed_location_bits", Value.list (nat_items s.server_confirmed_location_bits))
    ∷ ("pending_location_outbox", Value.list (nat_items s.pending_location_outbox))
    ∷ ("local_earned_precursor_orbs", Value.int (pos s.local_earned_precursor_orbs))
    ∷ ("local_earned_skull_gems", Value.int (pos s.local_earned_skull_gems))
    ∷ ("active_bootstrap_overlay", optional_value s.active_bootstrap_overlay)
    ∷ ("active_shadow_story_state", optional_value s.active_shadow_story_state)
    ∷ ("pending_traps", Value.list (value_items s.pending_traps))
    ∷ ("goal_completed", Value.bool s.goal_completed)
    ∷ ("goal_status_sent", Value.bool s.goal_status_sent)
    ∷ ("last_clean_shutdown", Value.bool s.last_clean_shutdown)
    ∷ [])

abbrev pub persistent_state_keys : List String
persistent_state_keys =
    "state_instance_id" ∷ "state_revision" ∷ "state_schema_version" ∷ "protocol_version"
    ∷ "game_integration_version" ∷ "slot_data_version" ∷ "item_table_hash" ∷ "location_table_hash"
    ∷ "mission_table_hash" ∷ "resolved_options_hash" ∷ "design_version" ∷ "seed_identifier" ∷ "team"
    ∷ "slot" ∷ "slot_name" ∷ "native_save_slot" ∷ "native_save_identity"
    ∷ "next_received_item_index" ∷ "received_item_journal" ∷ "received_item_counts"
    ∷ "pending_item_application_indices" ∷ "game_application_journal_version"
    ∷ "last_observed_game_command_receipt" ∷ "checked_location_bits"
    ∷ "server_confirmed_location_bits" ∷ "pending_location_outbox" ∷ "local_earned_precursor_orbs"
    ∷ "local_earned_skull_gems" ∷ "active_bootstrap_overlay" ∷ "active_shadow_story_state"
    ∷ "pending_traps" ∷ "goal_completed" ∷ "goal_status_sent" ∷ "last_clean_shutdown" ∷ []

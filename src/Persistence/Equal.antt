-- ===== src/Persistence/Equal.antt =====
-- `==` on states, as the data class compares them: field by field.
use text.Mathlib.Text.{◌==◌ as str_eq}
use jak3_ap.Prelude.{
  ℕ, ◌+◌, ◌==◌, ℤ, pos, same_int, String, Bool, true, false, not, ◌&&◌, Option, none, some, List,
  [], ◌∷◌,
}
use jak3_ap.Value.{Value, Items, Fields, get, has_key}
use jak3_ap.IdSet.{same_list}
use jak3_ap.Persistence.State.{StateContract, GameCommandReceipt, PersistentState}
use jak3_ap.Persistence.Journal.{same_counts}
use jak3_ap.ReceivedItems.{same_journal}

unfoldable pub same_texts : Option String → Option String → Bool
same_texts none none = true
same_texts (some a) (some b) = str_eq a b
same_texts _ _ = false

unfoldable pub same_numbers : Option ℕ → Option ℕ → Bool
same_numbers none none = true
same_numbers (some a) (some b) = a == b
same_numbers _ _ = false

same_flag : Bool → Bool → Bool
same_flag true b = b
same_flag false b = not b

field_count : Fields → ℕ
field_count Fields.end = 0
field_count (Fields.field k v fs) = 1 + field_count fs

same_size : Fields → Option Fields → Bool
unfolding field_count
same_size fs none = false
same_size fs (some gs) = field_count fs == field_count gs

key_in : Value → Fields → Bool
key_in (Value.str key) fs = has_key key fs
key_in _ fs = false

value_at : Value → Fields → Value
value_at (Value.str key) fs = get key fs
value_at _ fs = Value.null

-- a number, or a Boolean, which Python compares as 0 or 1
same_number_value : ℤ → Value → Bool
same_number_value n (Value.int m) = same_int n m
same_number_value n (Value.bool true) = same_int n (pos 1)
same_number_value n (Value.bool false) = same_int n (pos 0)
same_number_value _ _ = false

is_null : Value → Bool
is_null Value.null = true
is_null _ = false

same_text_value : String → Value → Bool
same_text_value s (Value.str t) = str_eq s t
same_text_value _ _ = false

items_of : Value → Option Items
items_of (Value.list xs) = some xs
items_of _ = none

fields_in : Value → Option Fields
fields_in (Value.dict fs) = some fs
fields_in _ = none

-- `==` on the JSON values of a state, which have no floats, tuples or other objects in them;
-- mappings are compared without regard to order
unfoldable mutual
  unfolding same_size key_in value_at same_number_value is_null same_text_value items_of fields_in

  pub same_value : Value → Value → Bool
  same_value Value.null w = is_null w
  same_value (Value.bool true) w = same_number_value (pos 1) w
  same_value (Value.bool false) w = same_number_value (pos 0) w
  same_value (Value.int n) w = same_number_value n w
  same_value (Value.str s) w = same_text_value s w
  same_value (Value.list xs) w = same_items xs (items_of w)
  same_value (Value.dict fs) w = same_size fs (fields_in w) && all_found fs (fields_in w)
  same_value _ w = false

  same_items : Items → Option Items → Bool
  same_items _ none = false
  same_items Items.nil (some Items.nil) = true
  same_items (Items.cons v xs) (some (Items.cons w ys)) = same_value v w && same_items xs (some ys)
  same_items _ _ = false

  all_found : Fields → Option Fields → Bool
  all_found _ none = false
  all_found Fields.end (some gs) = true
  all_found (Fields.field k v fs) (some gs) =
      key_in k gs && same_value v (value_at k gs) && all_found fs (some gs)

same_optional_value : Option Value → Option Value → Bool
unfolding same_value
same_optional_value none none = true
same_optional_value (some v) (some w) = same_value v w
same_optional_value _ _ = false

same_values : List Value → List Value → Bool
unfolding same_value
same_values [] [] = true
same_values (v ∷ vs) (w ∷ ws) = same_value v w && same_values vs ws
same_values _ _ = false

same_receipt : Option GameCommandReceipt → Option GameCommandReceipt → Bool
same_receipt none none = true
same_receipt (some a) (some b) =
    str_eq a.command_id b.command_id
    && str_eq a.command_kind b.command_kind
    && str_eq a.result b.result
same_receipt _ _ = false

same_contract : StateContract → StateContract → Bool
same_contract a b =
    a.state_schema_version == b.state_schema_version
    && a.protocol_version == b.protocol_version
    && a.game_integration_version == b.game_integration_version
    && a.slot_data_version == b.slot_data_version
    && str_eq a.item_table_hash b.item_table_hash
    && str_eq a.location_table_hash b.location_table_hash
    && str_eq a.mission_table_hash b.mission_table_hash
    && str_eq a.resolved_options_hash b.resolved_options_hash
    && str_eq a.design_version b.design_version

-- `PersistentState.__eq__`, which the data class generates
unfoldable pub same_state : PersistentState → PersistentState → Bool
unfolding same_flag same_optional_value same_values same_receipt same_contract same_texts
    same_numbers same_list same_counts same_journal
same_state s t =
    str_eq s.state_instance_id t.state_instance_id
    && s.state_revision == t.state_revision
    && same_contract s.contract t.contract
    && same_texts s.seed_identifier t.seed_identifier
    && same_numbers s.team t.team
    && same_numbers s.slot t.slot
    && same_texts s.slot_name t.slot_name
    && s.native_save_slot == t.native_save_slot
    && str_eq s.native_save_identity t.native_save_identity
    && s.next_received_item_index == t.next_received_item_index
    && same_journal s.received_item_journal t.received_item_journal
    && same_counts s.received_item_counts t.received_item_counts
    && same_list s.pending_item_application_indices t.pending_item_application_indices
    && s.game_application_journal_version == t.game_application_journal_version
    && same_receipt s.last_observed_game_command_receipt t.last_observed_game_command_receipt
    && same_list s.checked_location_bits t.checked_location_bits
    && same_list s.server_confirmed_location_bits t.server_confirmed_location_bits
    && same_list s.pending_location_outbox t.pending_location_outbox
    && s.local_earned_precursor_orbs == t.local_earned_precursor_orbs
    && s.local_earned_skull_gems == t.local_earned_skull_gems
    && same_optional_value s.active_bootstrap_overlay t.active_bootstrap_overlay
    && same_optional_value s.active_shadow_story_state t.active_shadow_story_state
    && same_values s.pending_traps t.pending_traps
    && same_flag s.goal_completed t.goal_completed
    && same_flag s.goal_status_sent t.goal_status_sent
    && same_flag s.last_clean_shutdown t.last_clean_shutdown

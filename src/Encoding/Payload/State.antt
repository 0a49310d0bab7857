-- ===== src/Encoding/Payload/State.antt =====
-- `PersistentState.from_payload` of worlds/jak3/persistence.py.
use jak3_ap.Prelude.{
  pos, same_int, String, none, Result, ok, corruption, compatibility, ◌>>=◌, ◌>>◌, require,
}
use jak3_ap.Value.{Value, Fields, get, has_just_keys}
use jak3_ap.Persistence.State.{PersistentState}
use jak3_ap.Persistence.Identity.{Platform}
use jak3_ap.Persistence.Validate.{validate_state, post_init}
use jak3_ap.Encoding.Json.{Library}
use jak3_ap.Encoding.Payload.Write.{persistent_state_keys}
use jak3_ap.Encoding.Payload.Read.{
  read_text, read_nat, read_int, read_bool, read_optional_text, read_optional_nat,
  read_optional_mapping, read_nats, read_traps, read_journal, read_counts, read_receipt,
}

-- The fields of the state, from the values of a payload's keys. A value of the wrong type, or a
-- negative number, is refused here as corrupt, and in the code by the validation of the state.
unfoldable pub read_payload : Library → (String → Value) → Result PersistentState
read_payload lib at = do
  state_instance_id ← read_text (at "state_instance_id")
  state_revision ← read_nat (at "state_revision")
  state_schema_version ← read_nat (at "state_schema_version")
  protocol_version ← read_nat (at "protocol_version")
  game_integration_version ← read_nat (at "game_integration_version")
  slot_data_version ← read_nat (at "slot_data_version")
  item_table_hash ← read_text (at "item_table_hash")
  location_table_hash ← read_text (at "location_table_hash")
  mission_table_hash ← read_text (at "mission_table_hash")
  resolved_options_hash ← read_text (at "resolved_options_hash")
  design_version ← read_text (at "design_version")
  seed_identifier ← read_optional_text (at "seed_identifier")
  team ← read_optional_nat (at "team")
  slot ← read_optional_nat (at "slot")
  slot_name ← read_optional_text (at "slot_name")
  native_save_slot ← read_nat (at "native_save_slot")
  native_save_identity ← read_text (at "native_save_identity")
  next_received_item_index ← read_nat (at "next_received_item_index")
  received_item_journal ← read_journal (at "received_item_journal")
  received_item_counts ← read_counts lib (at "received_item_counts")
  pending_item_application_indices ← read_nats (at "pending_item_application_indices")
  game_application_journal_version ← read_nat (at "game_application_journal_version")
  last_observed_game_command_receipt ← read_receipt (at "last_observed_game_command_receipt")
  checked_location_bits ← read_nats (at "checked_location_bits")
  server_confirmed_location_bits ← read_nats (at "server_confirmed_location_bits")
  pending_location_outbox ← read_nats (at "pending_location_outbox")
  local_earned_precursor_orbs ← read_nat (at "local_earned_precursor_orbs")
  local_earned_skull_gems ← read_nat (at "local_earned_skull_gems")
  active_bootstrap_overlay ← read_optional_mapping (at "active_bootstrap_overlay")
  active_shadow_story_state ← read_optional_mapping (at "active_shadow_story_state")
  pending_traps ← read_traps (at "pending_traps")
  goal_completed ← read_bool (at "goal_completed")
  goal_status_sent ← read_bool (at "goal_status_sent")
  last_clean_shutdown ← read_bool (at "last_clean_shutdown")
  ok (record {
    state_instance_id = state_instance_id;
    state_revision = state_revision;
    contract = record {
      state_schema_version = state_schema_version;
      protocol_version = protocol_version;
      game_integration_version = game_integration_version;
      slot_data_version = slot_data_version;
      item_table_hash = item_table_hash;
      location_table_hash = location_table_hash;
      mission_table_hash = mission_table_hash;
      resolved_options_hash = resolved_options_hash;
      design_version = design_version;
    };
    seed_identifier = seed_identifier;
    team = team;
    slot = slot;
    slot_name = slot_name;
    native_save_slot = native_save_slot;
    native_save_identity = native_save_identity;
    next_received_item_index = next_received_item_index;
    received_item_journal = received_item_journal;
    received_item_counts = received_item_counts;
    pending_item_application_indices = pending_item_application_indices;
    game_application_journal_version = game_application_journal_version;
    last_observed_game_command_receipt = last_observed_game_command_receipt;
    checked_location_bits = checked_location_bits;
    server_confirmed_location_bits = server_confirmed_location_bits;
    pending_location_outbox = pending_location_outbox;
    local_earned_precursor_orbs = local_earned_precursor_orbs;
    local_earned_skull_gems = local_earned_skull_gems;
    active_bootstrap_overlay = active_bootstrap_overlay;
    active_shadow_story_state = active_shadow_story_state;
    pending_traps = pending_traps;
    goal_completed = goal_completed;
    goal_status_sent = goal_status_sent;
    last_clean_shutdown = last_clean_shutdown;
  })

-- the checks of the schema version and of the keys
unfoldable pub check_payload : Fields → Result (Unit {0})
unfolding read_int has_just_keys get
check_payload payload = do
  schema ← read_int (get "state_schema_version" payload)
  require (same_int schema (pos 1)) compatibility
  require (has_just_keys persistent_state_keys payload) corruption

-- the construction of the state, which validates it, and the validation after it
unfoldable pub construct : Platform → PersistentState → Result PersistentState
construct p raw = do state ← post_init p raw; validate_state p state none none; ok state

unfoldable pub from_payload : Library → Platform → Fields → Result PersistentState
unfolding check_payload read_payload construct
from_payload lib p payload = do
  check_payload payload
  raw ← read_payload lib (λ key. get key payload)
  construct p raw

-- ===== src/Persistence/Validate.antt =====
-- `validate_state` of worlds/jak3/persistence.py, and the operations on a state that call it.
use jak3_ap.Prelude.{
  ℕ, not, ◌||◌, Option, none, some, List, [], ◌∷◌, ◌==◌, Result, ok, corruption, compatibility,
  ◌>>=◌, ◌>>◌, require,
}
use jak3_ap.Value.{Value, validate_json_mapping}
use jak3_ap.Persistence.State.{
  NativeSaveDescriptor, AuthenticatedSlot, GameCommandReceipt, PersistentState,
}
use jak3_ap.Persistence.Identity.{
  Platform, expected_contract, compare_contract, validate_uuid, validate_native_save_slot,
  validate_identity_text, validate_native_save, is_bound, validate_binding,
}
use jak3_ap.Persistence.Journal.{validate_journal}
use jak3_ap.Persistence.Locations.{validate_locations}

abbrev pub game_application_journal_version : ℕ
game_application_journal_version = 1

unfoldable pub validate_receipt : Option GameCommandReceipt → Result (Unit {0})
validate_receipt none = ok tt
validate_receipt (some r) = do
  validate_identity_text 128 r.command_id
  validate_identity_text 64 r.command_kind
  validate_identity_text 64 r.result

-- `_validate_optional_json_mapping`
unfoldable pub validate_optional_json_mapping : Option Value → Result (Unit {0})
validate_optional_json_mapping none = ok tt
validate_optional_json_mapping (some v) = validate_json_mapping v

unfoldable pub validate_traps : List Value → Result (Unit {0})
validate_traps [] = ok tt
validate_traps (v ∷ vs) = validate_json_mapping v >> validate_traps vs

-- the checks before the journal
unfoldable pub validate_header :
    Platform
    → PersistentState
    → Option NativeSaveDescriptor
    → Option AuthenticatedSlot
    → Result (Unit {0})
unfolding compare_contract validate_uuid validate_native_save_slot validate_native_save is_bound
    validate_binding
validate_header p s native_save authenticated = do
  compare_contract s.contract (expected_contract p)
  validate_uuid p s.state_instance_id
  validate_native_save_slot s.native_save_slot
  validate_identity_text 256 s.native_save_identity
  validate_native_save s native_save
  bound ← is_bound s
  validate_binding s authenticated bound

-- the checks of the game-application journal
unfoldable pub validate_application : PersistentState → Result (Unit {0})
unfolding validate_receipt
validate_application s = do
  require (s.game_application_journal_version == game_application_journal_version) compatibility
  validate_receipt s.last_observed_game_command_receipt

-- the checks after the locations
unfoldable pub validate_footer : PersistentState → Result (Unit {0})
unfolding validate_optional_json_mapping validate_traps
validate_footer s = do
  validate_optional_json_mapping s.active_bootstrap_overlay
  validate_optional_json_mapping s.active_shadow_story_state
  validate_traps s.pending_traps
  require (not s.goal_status_sent || s.goal_completed) corruption

unfoldable pub validate_state :
    Platform
    → PersistentState
    → Option NativeSaveDescriptor
    → Option AuthenticatedSlot
    → Result (Unit {0})
validate_state p s native_save authenticated = do
  validate_header p s native_save authenticated
  validate_journal s.next_received_item_index s.received_item_journal s.received_item_counts
      s.pending_item_application_indices
  validate_application s
  validate_locations s.checked_location_bits s.server_confirmed_location_bits
      s.pending_location_outbox
  validate_footer s

-- `dataclasses.replace` builds a new object, and `__post_init__` validates it
unfoldable pub post_init : Platform → PersistentState → Result PersistentState
post_init p s = validate_state p s none none >> ok s

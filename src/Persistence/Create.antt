-- ===== src/Persistence/Create.antt =====
-- `create_unbound` and `bind` of `PersistentState` (worlds/jak3/persistence.py).
pub mod Valid
use jak3_ap.Prelude.{
  String, Bool, true, false, none, some, [], Result, ok, err, eligibility, ◌>>=◌, ◌>>◌,
}
use jak3_ap.Persistence.State.{
  NativeSaveEligibility, NativeSaveDescriptor, AuthenticatedSlot, PersistentState,
}
use jak3_ap.Persistence.Identity.{
  Platform, expected_contract, is_bound, validate_authenticated_binding,
}
use jak3_ap.Persistence.Validate.{validate_state, post_init, game_application_journal_version}

-- the fields of a new state
unfoldable pub unbound_state : Platform → NativeSaveDescriptor → String → PersistentState
unbound_state p native_save state_instance_id = record {
  state_instance_id = state_instance_id;
  state_revision = 0;
  contract = expected_contract p;
  seed_identifier = none;
  team = none;
  slot = none;
  slot_name = none;
  native_save_slot = native_save.slot;
  native_save_identity = native_save.identity;
  next_received_item_index = 0;
  received_item_journal = [];
  received_item_counts = [];
  pending_item_application_indices = [];
  game_application_journal_version = game_application_journal_version;
  last_observed_game_command_receipt = none;
  checked_location_bits = [];
  server_confirmed_location_bits = [];
  pending_location_outbox = [];
  local_earned_precursor_orbs = 0;
  local_earned_skull_gems = 0;
  active_bootstrap_overlay = none;
  active_shadow_story_state = none;
  pending_traps = [];
  goal_completed = false;
  goal_status_sent = false;
  last_clean_shutdown = true;
}

create_for :
    Platform → NativeSaveDescriptor → String → NativeSaveEligibility → Result PersistentState
create_for p native_save id NativeSaveEligibility.fresh_unprogressed = do
  state ← post_init p (unbound_state p native_save id)
  validate_state p state (some native_save) none
  ok state
create_for p native_save id _ = err eligibility

unfoldable pub create_unbound : Platform → NativeSaveDescriptor → String → Result PersistentState
unfolding create_for
create_unbound p native_save state_instance_id =
    create_for p native_save state_instance_id native_save.eligibility

-- the four fields of a slot binding
unfoldable pub with_binding : PersistentState → AuthenticatedSlot → PersistentState
with_binding s a = record s {
  seed_identifier = some a.seed_identifier;
  team = some a.team;
  slot = some a.slot;
  slot_name = some a.slot_name;
}

unfoldable pub bind_as :
    Platform → PersistentState → AuthenticatedSlot → Bool → Result PersistentState
unfolding with_binding
bind_as p s a true = validate_authenticated_binding s a >> ok s
bind_as p s a false = do
  state ← post_init p (with_binding s a)
  validate_state p state none (some a)
  ok state

unfoldable pub bind : Platform → PersistentState → AuthenticatedSlot → Result PersistentState
unfolding bind_as
bind p s a = do bound ← is_bound s; bind_as p s a bound

-- ===== src/Tests/Sample.antt =====
-- A concrete platform, saves and states for the tests.
use text.Mathlib.Text.{◌==◌ as str_eq}
use jak3_ap.Prelude.{refl, String, [], ◌∷◌, pos, negsuc}
use jak3_ap.Persistence.State.{
  NativeSaveEligibility, NativeSaveDescriptor, ReceivedItemState, ReceivedItemJournalEntry,
  PersistentState,
}
use jak3_ap.IdSet.{member}
use jak3_ap.Registry.{item_ids, location_ids}
use jak3_ap.Persistence.Identity.{
  Platform, expected_contract, compare_contract, validate_uuid, validate_native_save_slot,
  validate_identity_text, validate_native_save, is_bound, validate_binding,
}
use jak3_ap.Persistence.Journal.{validate_journal}
use jak3_ap.Persistence.Locations.{validate_locations}
use jak3_ap.IdSet.{subset, sorted_set, same_list, is_empty, intersection}
use jak3_ap.Persistence.Validate.{
  validate_state, validate_header, validate_application, validate_footer,
}
use jak3_ap.Persistence.Create.{unbound_state}
use jak3_ap.Outbox.Transition.{IsValid}

abbrev pub state_id : String
state_id = "00000000-0000-4000-8000-000000000001"

abbrev pub platform : Platform
platform = record {
  canonical_uuid = λ text. str_eq text state_id;
  item_table_hash = "items";
  location_table_hash = "locations";
  mission_table_hash = "missions";
  resolved_options_hash = "options";
}

abbrev pub save : NativeSaveDescriptor
save = record {
  slot = 2;
  identity = "save";
  eligibility = NativeSaveEligibility.fresh_unprogressed;
}

abbrev pub jetboard : ReceivedItemJournalEntry
jetboard = record {
  index = 0;
  item_id = 743000108;
  location_id = negsuc 1;
  source_player = 0;
  flags = 1;
  state = ReceivedItemState.applied;
}

abbrev pub blaster : ReceivedItemJournalEntry
blaster = record {
  index = 1;
  item_id = 743010014;
  location_id = pos 743001010;
  source_player = 3;
  flags = 1;
  state = ReceivedItemState.pending;
}

-- a state in the middle of a game: two items, two checked locations, one of them confirmed
abbrev pub playing : PersistentState
playing = record (unbound_state platform save state_id) {
  state_revision = 7;
  next_received_item_index = 2;
  received_item_journal = jetboard ∷ blaster ∷ [];
  received_item_counts = (743000108, 1) ∷ (743010014, 1) ∷ [];
  pending_item_application_indices = 1 ∷ [];
  checked_location_bits = 743001010 ∷ 743001011 ∷ [];
  server_confirmed_location_bits = 743001010 ∷ [];
  pending_location_outbox = 743001011 ∷ [];
}

pub playing-IsValid : IsValid platform playing
unfolding validate_state validate_header compare_contract expected_contract validate_uuid
    validate_native_save_slot validate_identity_text validate_native_save is_bound validate_binding
    validate_journal item_ids location_ids member validate_application validate_locations subset
    sorted_set same_list is_empty intersection validate_footer unbound_state
playing-IsValid = refl

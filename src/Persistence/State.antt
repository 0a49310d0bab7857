-- ===== src/Persistence/State.antt =====
-- The data classes of worlds/jak3/persistence.py. A field that the program keeps nonnegative is an
-- ℕ; `location_id` is a ℤ, since Archipelago uses negative location IDs. The nine version and hash
-- fields of `PersistentState` are grouped in `StateContract`, whose names are opened.
use jak3_ap.Prelude.{ℕ, ℤ, String, Bool, Option, List}
use jak3_ap.Value.{Value}

pub data NativeSaveEligibility : Type 0 where
  fresh_unprogressed ineligible : NativeSaveEligibility

pub data ReceivedItemState : Type 0 where
  received pending applied : ReceivedItemState

pub record NativeSaveDescriptor : Type 0 where
  pub slot : ℕ
  pub identity : String
  pub eligibility : NativeSaveEligibility

pub record StateContract : Type 0 where
  pub state_schema_version : ℕ
  pub protocol_version : ℕ
  pub game_integration_version : ℕ
  pub slot_data_version : ℕ
  pub item_table_hash : String
  pub location_table_hash : String
  pub mission_table_hash : String
  pub resolved_options_hash : String
  pub design_version : String

-- `contract` holds the nine entries of the slot data that the binding check reads.
pub record AuthenticatedSlot : Type 0 where
  pub seed_identifier : String
  pub team : ℕ
  pub slot : ℕ
  pub slot_name : String
  pub contract : StateContract

pub record ReceivedItemJournalEntry : Type 0 where
  pub index : ℕ
  pub item_id : ℕ
  pub location_id : ℤ
  pub source_player : ℕ
  pub flags : ℕ
  pub state : ReceivedItemState

pub record GameCommandReceipt : Type 0 where
  pub command_id : String
  pub command_kind : String
  pub result : String

pub record PersistentState : Type 0 where
  pub state_instance_id : String
  pub state_revision : ℕ
  pub contract : StateContract
  pub open contract use *
  pub seed_identifier : Option String
  pub team : Option ℕ
  pub slot : Option ℕ
  pub slot_name : Option String
  pub native_save_slot : ℕ
  pub native_save_identity : String
  pub next_received_item_index : ℕ
  pub received_item_journal : List ReceivedItemJournalEntry
  pub received_item_counts : List (ℕ × ℕ)
  pub pending_item_application_indices : List ℕ
  pub game_application_journal_version : ℕ
  pub last_observed_game_command_receipt : Option GameCommandReceipt
  pub checked_location_bits : List ℕ
  pub server_confirmed_location_bits : List ℕ
  pub pending_location_outbox : List ℕ
  pub local_earned_precursor_orbs : ℕ
  pub local_earned_skull_gems : ℕ
  pub active_bootstrap_overlay : Option Value
  pub active_shadow_story_state : Option Value
  pub pending_traps : List Value
  pub goal_completed : Bool
  pub goal_status_sent : Bool
  pub last_clean_shutdown : Bool

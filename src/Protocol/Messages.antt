-- ===== src/Protocol/Messages.antt =====
-- The messages of worlds/jak3/agents/protocol.py: the enumerations of the wire, command receipts
-- and the runtime snapshot, without its diagnostic fields.

use jak3_ap.Prelude.{ℕ, String, Bool, Option, List, ℤ, pos}

pub data ClientStatus : Type 0 where
  starting ap_disconnected ap_connected stopping error : ClientStatus

pub data GameStatus : Type 0 where
  source_loaded ready incompatible client_disconnected error : GameStatus

pub data ProtocolCommand : Type 0 where
  none hello ping query_state disconnect set_test_target test_additive_effect
        reconcile_permanent_items :
      ProtocolCommand

-- `int(kind)`
unfoldable pub command_value : ProtocolCommand → ℤ
command_value ProtocolCommand.none = pos 0
command_value ProtocolCommand.hello = pos 1
command_value ProtocolCommand.ping = pos 2
command_value ProtocolCommand.query_state = pos 3
command_value ProtocolCommand.disconnect = pos 4
command_value ProtocolCommand.set_test_target = pos 100
command_value ProtocolCommand.test_additive_effect = pos 101
command_value ProtocolCommand.reconcile_permanent_items = pos 102

pub data ProtocolResult : Type 0 where
  none ok pong applied already_applied queued unsafe_now incompatible invalid_payload failed :
      ProtocolResult

pub data ProtocolError : Type 0 where
  none protocol_mismatch game_integration_mismatch state_schema_mismatch slot_data_mismatch
        item_table_mismatch location_table_mismatch mission_table_mismatch invalid_client_session
        invalid_game_session out_of_order_command_id duplicate_command_conflict unknown_command
        invalid_payload ap_state_not_loaded ap_state_not_bound save_not_loaded unsafe_game_state
        additive_effect_forbidden internal_failure :
      ProtocolError

pub data NativeSaveEligibility : Type 0 where
  unknown fresh_unprogressed ineligible : NativeSaveEligibility

-- A receipt of the game. A kind is its number, since the wire may carry kinds that the enumeration
-- does not name; the parser has rejected negative command IDs.
pub record CommandReceipt : Type 0 where
  pub command_id : ℕ
  pub command_kind : ℤ
  pub payload : ℤ
  pub result : ProtocolResult
  pub error_code : ProtocolError

pub record BridgeSnapshot : Type 0 where
  pub snapshot_revision : ℕ
  pub protocol_version : ℤ
  pub game_integration_version : ℤ
  pub bridge_runtime_version : ℤ
  pub bridge_activation_generation : ℤ
  pub items_module_active : Bool
  pub locations_module_active : Bool
  pub reward_module_active : Bool
  pub state_schema_version : ℤ
  pub slot_data_version : ℤ
  pub item_table_version : ℤ
  pub location_table_version : ℤ
  pub mission_table_version : ℤ
  pub item_table_hash : String
  pub location_table_hash : String
  pub mission_table_hash : String
  pub connection_ready : Bool
  pub client_session_id : Option String
  pub session_nonce : Option String
  pub client_heartbeat : ℤ
  pub client_status : ClientStatus
  pub game_heartbeat : ℤ
  pub game_status : GameStatus
  pub game_running : Bool
  pub source_loaded : Bool
  pub save_loaded : Bool
  pub native_save_slot : ℤ
  pub native_save_identity : Option String
  pub consumed_save_identity : Option String
  pub native_save_eligibility : NativeSaveEligibility
  pub ap_state_loaded : Bool
  pub ap_state_bound : Bool
  pub current_level : Option String
  pub current_act : ℤ
  pub current_task : ℤ
  pub current_task_node : ℤ
  pub at_title_menu : Bool
  pub loading : Bool
  pub in_cutscene : Bool
  pub dying_or_dead : Bool
  pub mission_restarting : Bool
  pub level_transition : Bool
  pub in_vehicle : Bool
  pub safe_to_apply_permanent_item : Bool
  pub permanent_item_native_target_mask : ℤ
  pub safe_to_apply_consumable : Bool
  pub safe_to_mutate_mission_state : Bool
  pub test_target : Bool
  pub last_command_id : ℤ
  pub last_command_kind : ℤ
  pub last_command_result : ProtocolResult
  pub last_error_code : ProtocolError
  pub last_error_message : String
  pub recent_command_receipts : List CommandReceipt

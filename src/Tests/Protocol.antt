-- ===== src/Tests/Protocol.antt =====
-- A concrete session with the game.
use jak3_ap.Prelude.{
  ◌≡◌, ◌↔◌, refl, ℤ, pos, negsuc, true, false, none, some, List, [], ◌∷◌, ok, err, All, arith,
  not_published,
}
use jak3_ap.IdSet.{member}
use jak3_ap.Protocol.Messages.{
  ClientStatus, GameStatus, ProtocolCommand, ProtocolResult, ProtocolError, NativeSaveEligibility,
  CommandReceipt, BridgeSnapshot,
}
use jak3_ap.Protocol.Contract.{validate_compatibility}
use jak3_ap.Protocol.Contract.Matches.{Matches, validate_compatibility_iff}
use jak3_ap.Protocol.TimedOut.{TimedOutCommand, find, observe_command_recovery}
use jak3_ap.Protocol.TimedOut.Recovery.{
  is_answered, OfSession, observe_command_recovery_lem, observe_command_recovery-OfSession,
}
use jak3_ap.Protocol.Session.{
  BridgeState, Answer, set_ap_state_status, validate_goal_string, loaded_slot, loaded_identity,
  wait_for,
}
use jak3_ap.Protocol.Session.Status.{HasStatus, set_ap_state_status-HasStatus}
use jak3_ap.Protocol.Commands.{
  send_command, admit_command, is_timed_out, transmit, admitted, exchange, send, reserve,
  record_failure, after_send, bears_receipt, connected, selected_id, check_id, check_payload,
}
use jak3_ap.Protocol.Commands.Ids.{Request, run, send_command_fresh}
use jak3_ap.Protocol.Commands.TimeOuts.{Bounded, send_command-Bounded, send_command-timed_out}
use jak3_ap.Protocol.Acknowledge.Coalesce.{
  schedule_all, of_generation, IsGreatest, schedule_all-IsGreatest,
}
use jak3_ap.Tests.Sample.{platform}

abbrev first_snapshot : BridgeSnapshot
first_snapshot = record {
  snapshot_revision = 0;
  protocol_version = pos 3;
  game_integration_version = pos 2;
  bridge_runtime_version = pos 5;
  bridge_activation_generation = pos 1;
  items_module_active = true;
  locations_module_active = true;
  reward_module_active = true;
  state_schema_version = pos 1;
  slot_data_version = pos 2;
  item_table_version = pos 2;
  location_table_version = pos 2;
  mission_table_version = pos 1;
  item_table_hash = "items";
  location_table_hash = "locations";
  mission_table_hash = "missions";
  connection_ready = false;
  client_session_id = none;
  session_nonce = none;
  client_heartbeat = negsuc 0;
  client_status = ClientStatus.starting;
  game_heartbeat = pos 0;
  game_status = GameStatus.source_loaded;
  game_running = true;
  source_loaded = true;
  save_loaded = false;
  native_save_slot = negsuc 0;
  native_save_identity = none;
  consumed_save_identity = none;
  native_save_eligibility = NativeSaveEligibility.unknown;
  ap_state_loaded = false;
  ap_state_bound = false;
  current_level = none;
  current_act = pos 0;
  current_task = negsuc 0;
  current_task_node = negsuc 0;
  at_title_menu = true;
  loading = false;
  in_cutscene = false;
  dying_or_dead = false;
  mission_restarting = false;
  level_transition = false;
  in_vehicle = false;
  safe_to_apply_permanent_item = false;
  permanent_item_native_target_mask = negsuc 0;
  safe_to_apply_consumable = false;
  safe_to_mutate_mission_state = false;
  test_target = false;
  last_command_id = negsuc 0;
  last_command_kind = pos 0;
  last_command_result = ProtocolResult.none;
  last_error_code = ProtocolError.none;
  last_error_message = "none";
  recent_command_receipts = [];
}

abbrev receipt : CommandReceipt
receipt = record {
  command_id = 3;
  command_kind = pos 100;
  payload = pos 1;
  result = ProtocolResult.applied;
  error_code = ProtocolError.none;
}

abbrev lost_commands : List TimedOutCommand
lost_commands =
    record { nonce = "old"; command_id = 3; kind = ProtocolCommand.set_test_target }
    ∷ record { nonce = "game"; command_id = 3; kind = ProtocolCommand.set_test_target }
    ∷ record { nonce = "game"; command_id = 4; kind = ProtocolCommand.set_test_target }
    ∷ []

abbrev session : BridgeState
session = record {
  session_id = "client";
  session_nonce = some "game";
  next_sequence = 1;
  next_command_id = pos 7;
  last_snapshot = none;
  proposed_save_identity = none;
  save_identity_authorized = false;
  timed_out_commands = lost_commands;
  ap_state_loaded = false;
  ap_state_bound = false;
  ap_state_native_save_slot = negsuc 0;
  ap_state_native_save_identity = none;
}

abbrev silence : Answer
silence = record { sent = ok tt; polls = [] }

observe_command_recovery_lem_example :
    (find "game" 4 (observe_command_recovery (some "game") (receipt ∷ []) lost_commands)
      ≡ some ProtocolCommand.set_test_target)
    ↔ ((find "game" 4 lost_commands ≡ some ProtocolCommand.set_test_target)
        × (is_answered 4 ProtocolCommand.set_test_target (receipt ∷ []) ≡ false))
observe_command_recovery_lem_example =
    observe_command_recovery_lem "game" (receipt ∷ []) lost_commands 4
      ProtocolCommand.set_test_target

observe_command_recovery-OfSession_example :
    All (OfSession "game") (observe_command_recovery (some "game") (receipt ∷ []) lost_commands)
observe_command_recovery-OfSession_example =
    observe_command_recovery-OfSession "game" (receipt ∷ []) lost_commands

validate_compatibility_iff_example :
    (validate_compatibility platform first_snapshot ≡ ok tt) ↔ Matches platform first_snapshot
validate_compatibility_iff_example = validate_compatibility_iff platform first_snapshot

-- one command that timed out, and another that the game may have seen
abbrev earlier : List Request
earlier =
    Request.command ProtocolCommand.reconcile_permanent_items (pos 1) none silence
    ∷ Request.command ProtocolCommand.set_test_target (pos 1) (some (pos 20)) silence
    ∷ []

submits_next :
    (send_command platform ProtocolCommand.reconcile_permanent_items
      (pos 3)
      none
      silence
      (run platform earlier session).1).submitted
    ≡ some 22
unfolding run send_command admit_command transmit admitted exchange send reserve record_failure
    after_send bears_receipt connected selected_id check_id check_payload wait_for
    validate_goal_string is_timed_out
submits_next = refl

send_command_fresh_example : member 22 (run platform earlier session).0 ≡ false
send_command_fresh_example =
    send_command_fresh platform earlier session ProtocolCommand.reconcile_permanent_items (pos 3)
      silence 22 submits_next

few_lost : Bounded session
unfolding Bounded
few_lost = omega arith

send_command-Bounded_example :
    Bounded
      (send_command platform ProtocolCommand.reconcile_permanent_items
        (pos 3)
        none
        silence
        session).state
send_command-Bounded_example =
    send_command-Bounded platform ProtocolCommand.reconcile_permanent_items (pos 3) none silence
      session few_lost

is_admitted :
    admit_command ProtocolCommand.reconcile_permanent_items (pos 3) none session ≡ ok ("game", 7)
unfolding admit_command bears_receipt connected selected_id check_id check_payload
is_admitted = refl

is_not_published :
    (send_command platform ProtocolCommand.reconcile_permanent_items
      (pos 3)
      none
      silence
      session).result
    ≡ err not_published
unfolding run send_command admit_command transmit admitted exchange send reserve record_failure
    after_send bears_receipt connected selected_id check_id check_payload wait_for
    validate_goal_string is_timed_out
is_not_published = refl

not_published-is_timed_out : is_timed_out not_published ≡ true
unfolding is_timed_out
not_published-is_timed_out = refl

send_command-timed_out_example :
    find "game" 7
      (send_command platform ProtocolCommand.reconcile_permanent_items
        (pos 3)
        none
        silence
        session).state.timed_out_commands
    ≡ some ProtocolCommand.reconcile_permanent_items
send_command-timed_out_example =
    send_command-timed_out platform ProtocolCommand.reconcile_permanent_items (pos 3) none silence
      session "game" 7 not_published few_lost is_admitted is_not_published
      not_published-is_timed_out

abbrev reporting : BridgeState
reporting = record session {
  ap_state_loaded = true;
  ap_state_bound = true;
  ap_state_native_save_slot = pos 2;
  ap_state_native_save_identity = some "save";
}

reports : set_ap_state_status true true (some (pos 2)) (some "save") session ≡ ok reporting
unfolding set_ap_state_status loaded_slot loaded_identity validate_goal_string
reports = refl

set_ap_state_status-HasStatus_example : HasStatus reporting
set_ap_state_status-HasStatus_example =
    set_ap_state_status-HasStatus true true (some (pos 2)) (some "save") session reporting reports

abbrev calls : List (ℤ × ℤ)
calls = (pos 2, pos 9) ∷ (pos 2, pos 5) ∷ (pos 1, pos 40) ∷ []

schedule_all-IsGreatest_example :
    ((schedule_all (pos 2, pos 7) calls).0 ≡ pos 2)
    × IsGreatest
        (schedule_all (pos 2, pos 7) calls).1
        (of_generation (pos 2) ((pos 2, pos 7) ∷ calls))
schedule_all-IsGreatest_example = schedule_all-IsGreatest (pos 2, pos 7) calls

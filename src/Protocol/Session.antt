-- ===== src/Protocol/Session.antt =====
-- `BridgeProtocol` of worlds/jak3/agents/protocol.py: what the client keeps of a game session, the
-- wait for a snapshot, and the commands. The forms sent and the snapshots that the game publishes
-- in answer are arguments; diagnostic records and events are left out.
pub mod Status
use text.Mathlib.Text.{◌==◌ as str_eq}
use Prim.Native.Char.{code}
use jak3_ap.Prelude.{
  ℕ, suc, ◌+◌, ◌==◌, ltb, leb, ℤ, pos, negsuc, same_int, int_max, String, Bool, true, false, not,
  ◌&&◌, ◌||◌, Option, none, some, List, [], ◌∷◌, Result, ok, err, Error, ◌>>=◌, ◌>>◌, require,
  if◌then◌else◌, value_error, not_connected, not_published,
}
use jak3_ap.Persistence.Identity.{Platform, text_length}
use jak3_ap.Protocol.Messages.{
  ClientStatus, ProtocolCommand, command_value, ProtocolResult, BridgeSnapshot,
}
use jak3_ap.Protocol.Contract.{validate_compatibility, validate_reported}
use jak3_ap.Protocol.TimedOut.{TimedOutCommand, put, evict, observe_command_recovery}

abbrev pub wire_int32_max : ℕ
wire_int32_max = 2147483647

pub record BridgeState : Type 0 where
  pub session_id : String
  pub session_nonce : Option String
  pub next_sequence : ℕ
  pub next_command_id : ℤ
  pub last_snapshot : Option BridgeSnapshot
  pub proposed_save_identity : Option String
  pub save_identity_authorized : Bool
  pub timed_out_commands : List TimedOutCommand
  pub ap_state_loaded : Bool
  pub ap_state_bound : Bool
  pub ap_state_native_save_slot : ℤ
  pub ap_state_native_save_identity : Option String

-- One pass of the loop of `_wait_for` before the deadline: the snapshot and the versions read from
-- the file, and what `_create_save_identity` returns if it is called.
pub record Poll : Type 0 where
  pub snapshot : Option BridgeSnapshot
  pub reported : Option ℤ × Option ℤ
  pub proposal : Result String

-- What answers a form: whether the transport accepted it, and the passes until the deadline.
pub record Answer : Type 0 where
  pub sent : Result (Unit {0})
  pub polls : List Poll

has_low : String → Bool
has_low String.[] = false
has_low (String.◌∷◌ c text) = ltb (code c) 32 || has_low text

-- the check of `goal_string_literal` on its text
unfoldable pub validate_goal_string : String → Result (Unit {0})
unfolding has_low text_length
validate_goal_string text = do
  require (ltb 0 (text_length text) && leb (text_length text) 96) value_error
  require (not (has_low text)) value_error

unfoldable pub loaded_slot : Option ℤ → Result ℤ
loaded_slot none = err value_error
loaded_slot (some (pos slot)) = require (ltb slot 4) value_error >> ok (pos slot)
loaded_slot (some (negsuc _)) = err value_error

unfoldable pub loaded_identity : Option String → Result String
unfolding validate_goal_string
loaded_identity none = err value_error
loaded_identity (some identity) = validate_goal_string identity >> ok identity

-- `set_ap_state_status`
unfoldable pub set_ap_state_status :
    Bool → Bool → Option ℤ → Option String → BridgeState → Result BridgeState
unfolding loaded_slot loaded_identity
set_ap_state_status false bound slot identity s = do
  require (not bound) value_error
  ok (record s {
    ap_state_loaded = false;
    ap_state_bound = false;
    ap_state_native_save_slot = negsuc 0;
    ap_state_native_save_identity = none;
  })
set_ap_state_status true bound slot identity s = do
  native_save_slot ← loaded_slot slot
  native_save_identity ← loaded_identity identity
  ok (record s {
    ap_state_loaded = true;
    ap_state_bound = bound;
    ap_state_native_save_slot = native_save_slot;
    ap_state_native_save_identity = some native_save_identity;
  })

same_text : Option String → Option String → Bool
same_text (some a) (some b) = str_eq a b
same_text none none = true
same_text _ _ = false

unfoldable pub is_consumed : BridgeSnapshot → Option String → Bool
unfolding same_text
is_consumed snapshot none = false
is_consumed snapshot (some proposed) =
    same_text snapshot.consumed_save_identity (some proposed)
    || snapshot.save_loaded && same_text snapshot.native_save_identity (some proposed)

unfoldable pub propose : Result String → BridgeState → Result (Unit {0}) × BridgeState
propose (err e) s = (err e, s)
propose (ok identity) s = (ok tt, record s { proposed_save_identity = some identity })

-- `_observe_snapshot`
unfoldable pub observe_snapshot :
    Result String → BridgeSnapshot → BridgeState → Result (Unit {0}) × BridgeState
unfolding is_consumed propose
observe_snapshot proposal snapshot s =
    let observed = record s {
      last_snapshot = some snapshot;
      timed_out_commands =
          observe_command_recovery snapshot.session_nonce snapshot.recent_command_receipts
            s.timed_out_commands;
    } in
    if s.save_identity_authorized && is_consumed snapshot s.proposed_save_identity
    then propose proposal observed
    else (ok tt, observed)

unfoldable pub observe_read :
    Option BridgeSnapshot → Result String → BridgeState → Result (Unit {0}) × BridgeState
unfolding observe_snapshot
observe_read none proposal s = (ok tt, s)
observe_read (some snapshot) proposal s = observe_snapshot proposal snapshot s

unfoldable pub observe_poll : Poll → BridgeState → Result (Unit {0}) × BridgeState
unfolding observe_read
observe_poll poll s = observe_read poll.snapshot poll.proposal s

-- the snapshot that ends the wait, if this one does
accepted : (BridgeSnapshot → Bool) → BridgeSnapshot → Result (Option BridgeSnapshot)
accepted predicate snapshot = if predicate snapshot then ok (some snapshot) else ok none

check_snapshot : Platform → (BridgeSnapshot → Bool) → Bool → Poll → Result (Option BridgeSnapshot)
unfolding accepted validate_compatibility
check_snapshot p predicate check_versions poll = elim poll.snapshot [
  | none ↦ ok none
  | some snapshot ↦
      (if check_versions then validate_compatibility p snapshot else ok tt)
      >> accepted predicate snapshot
]

unfoldable pub check_reported : Bool → Poll → Option BridgeSnapshot → Result (Option BridgeSnapshot)
unfolding validate_reported
check_reported check_versions poll (some snapshot) = ok (some snapshot)
check_reported check_versions poll none =
    (if check_versions then validate_reported poll.reported else ok tt) >> ok none

-- raises, goes on with the passes that are left, or returns the snapshot
unfoldable pub conclude :
    Result (Option BridgeSnapshot)
    → Result BridgeSnapshot × BridgeState
    → BridgeState
    → Result BridgeSnapshot × BridgeState
conclude (err e) rest s = (err e, s)
conclude (ok none) rest s = rest
conclude (ok (some snapshot)) rest s = (ok snapshot, s)

-- `_wait_for`
unfoldable pub wait_for :
    Platform
    → (BridgeSnapshot → Bool)
    → Bool
    → List Poll
    → BridgeState
    → Result BridgeSnapshot × BridgeState
unfolding observe_poll check_snapshot check_reported conclude
wait_for p predicate check_versions [] s = (err not_published, s)
wait_for p predicate check_versions (poll ∷ polls) s =
    let (seen, observed) = observe_poll poll s in
    let rest = wait_for p predicate check_versions polls observed in
    let found = seen >> check_snapshot p predicate check_versions poll in
    conclude (found >>= check_reported check_versions poll) rest observed

-- ===== src/Protocol/Commands.antt =====
-- The exchanges of `BridgeProtocol` (worlds/jak3/agents/protocol.py): hello, ping, query and the
-- receipt-bearing commands. Each runs under the operation lock, so they follow one another.
pub mod Keeps
pub mod Ids
pub mod TimeOuts
use text.Mathlib.Text.{◌==◌ as str_eq}
use jak3_ap.Prelude.{
  ℕ, zero, suc, ◌+◌, ◌==◌, ltb, leb, ℤ, pos, negsuc, same_int, int_max, String, Bool, true, false,
  not, ◌&&◌, ◌||◌, Option, none, some, List, [], ◌∷◌, Result, ok, err, Error, ◌>>=◌, ◌>>◌, require,
  if◌then◌else◌, value_error, not_connected, not_published, transport, proposal,
}
use jak3_ap.Persistence.Identity.{Platform}
use jak3_ap.Protocol.Messages.{
  ProtocolCommand, command_value, ProtocolResult, CommandReceipt, BridgeSnapshot,
}
use jak3_ap.Protocol.TimedOut.{put, evict}
use jak3_ap.Protocol.Session.{BridgeState, Answer, validate_goal_string, wait_for, wire_int32_max}

-- the form's text parameters are checked while it is built, before it is sent
unfoldable pub send : Result (Unit {0}) → Answer → Result (Unit {0})
send form answer = form >> answer.sent

unfoldable pub after_send :
    Result (Unit {0})
    → BridgeState
    → Result BridgeSnapshot × BridgeState
    → Result BridgeSnapshot × BridgeState
after_send (err e) s waited = (err e, s)
after_send (ok _) s waited = waited

unfoldable pub exchange :
    Platform
    → (BridgeSnapshot → Bool)
    → Result (Unit {0})
    → Answer
    → BridgeState
    → Result BridgeSnapshot × BridgeState
unfolding send after_send
exchange p predicate form answer s =
    after_send (send form answer) s (wait_for p predicate true answer.polls s)

unfoldable pub connected : Option String → Result String
connected none = err not_connected
connected (some nonce) = ok nonce

is_text : String → Option String → Bool
is_text expected none = false
is_text expected (some found) = str_eq found expected

is_ok : ProtocolResult → Bool
is_ok ProtocolResult.ok = true
is_ok _ = false

is_pong : ProtocolResult → Bool
is_pong ProtocolResult.pong = true
is_pong _ = false

-- `snapshot_revision > previous_revision`, where no previous snapshot counts as revision -1
unfoldable pub is_newer : Option BridgeSnapshot → BridgeSnapshot → Bool
is_newer none current = true
is_newer (some previous) current = ltb previous.snapshot_revision current.snapshot_revision

next_number : ℤ → ℤ
next_number (pos n) = pos (suc n)
next_number (negsuc zero) = pos 0
next_number (negsuc (suc n)) = negsuc n

natural : ℤ → ℕ
natural (pos n) = n
natural (negsuc n) = 0

-- `max(receipt.command_id for receipt in receipts, default=last)`
greatest_id : ℤ → List CommandReceipt → ℤ
greatest_id last [] = last
greatest_id last (receipt ∷ []) = pos receipt.command_id
greatest_id last (receipt ∷ receipts) = int_max (pos receipt.command_id) (greatest_id last receipts)

-- `initialize` after the accepted hello
unfoldable pub adopt_session : BridgeSnapshot → BridgeState → BridgeState
unfolding next_number natural greatest_id
adopt_session snapshot s = record s {
  session_nonce = snapshot.session_nonce;
  next_sequence = natural (next_number snapshot.client_heartbeat);
  next_command_id =
      next_number (greatest_id snapshot.last_command_id snapshot.recent_command_receipts);
}

chosen_sequence : Option ℤ → ℕ → Result ℕ
chosen_sequence none next = ok next
chosen_sequence (some (pos n)) next = ok n
chosen_sequence (some (negsuc n)) next = err value_error

is_automatic : Option ℤ → Bool
is_automatic none = true
is_automatic (some _) = false

unfoldable pub admit_ping : Option ℤ → BridgeState → Result (String × ℕ)
unfolding chosen_sequence connected
admit_ping sequence s = do
  command_sequence ← chosen_sequence sequence s.next_sequence
  nonce ← connected s.session_nonce
  ok (nonce, command_sequence)

unfoldable pub is_pong_of : String → String → ℕ → Option BridgeSnapshot → BridgeSnapshot → Bool
unfolding is_text is_pong is_newer command_value
is_pong_of session_id nonce sequence before current =
    is_text session_id current.client_session_id
    && is_text nonce current.session_nonce
    && current.connection_ready
    && same_int current.client_heartbeat (pos sequence)
    && same_int current.last_command_kind (command_value ProtocolCommand.ping)
    && is_pong current.last_command_result
    && is_newer before current

unfoldable pub latest : Option BridgeSnapshot → Option BridgeSnapshot → Option BridgeSnapshot
latest none last = last
latest (some read) last = some read

unfoldable pub after_ping :
    Option ℤ → ℕ → Result BridgeSnapshot × BridgeState → Result BridgeSnapshot × BridgeState
unfolding is_automatic
after_ping sequence command_sequence (err e, s) = (err e, s)
after_ping sequence command_sequence (ok snapshot, s) =
    if is_automatic sequence
    then (ok snapshot, record s { next_sequence = command_sequence + 1 })
    else (ok snapshot, s)

unfoldable pub proposed_form : Option String → Result (Unit {0})
unfolding validate_goal_string
proposed_form none = ok tt
proposed_form (some identity) = validate_goal_string identity

unfoldable pub ping_with :
    Platform
    → Option ℤ
    → Option BridgeSnapshot
    → Answer
    → BridgeState
    → Result (String × ℕ)
    → Result BridgeSnapshot × BridgeState
unfolding exchange is_pong_of after_ping proposed_form validate_goal_string
ping_with p sequence before answer s (err e) = (err e, s)
ping_with p sequence before answer s (ok (nonce, command_sequence)) =
    after_ping sequence command_sequence (
      exchange p (is_pong_of s.session_id nonce command_sequence before)
        (validate_goal_string nonce >> proposed_form s.proposed_save_identity) answer s)

-- `ping`, where `read` is the snapshot that the file holds before the form is sent
unfoldable pub ping :
    Platform
    → Option ℤ
    → Option BridgeSnapshot
    → Answer
    → BridgeState
    → Result BridgeSnapshot × BridgeState
unfolding admit_ping ping_with latest
ping p sequence read answer s =
    ping_with p sequence (latest read s.last_snapshot) answer s (admit_ping sequence s)

is_query_result : Option BridgeSnapshot → BridgeSnapshot → Bool
unfolding is_newer is_ok command_value
is_query_result before current =
    is_newer before current
    && same_int current.last_command_kind (command_value ProtocolCommand.query_state)
    && is_ok current.last_command_result

-- `query`
unfoldable pub query : Platform → Answer → BridgeState → Result BridgeSnapshot × BridgeState
unfolding connected exchange is_query_result validate_goal_string
query p answer s = elim (connected s.session_nonce) [
  | err e ↦ (err e, s)
  | ok nonce ↦ exchange p (is_query_result s.last_snapshot) (validate_goal_string nonce) answer s
]

-- the kinds that `send_command` takes
unfoldable pub bears_receipt : ProtocolCommand → Bool
bears_receipt ProtocolCommand.set_test_target = true
bears_receipt ProtocolCommand.test_additive_effect = true
bears_receipt ProtocolCommand.reconcile_permanent_items = true
bears_receipt _ = false

unfoldable pub selected_id : Option ℤ → ℤ → ℤ
selected_id none next = next
selected_id (some id) next = id

unfoldable pub check_id : ℤ → Result ℕ
check_id (pos id) = require (leb id wire_int32_max) value_error >> ok id
check_id (negsuc _) = err value_error

unfoldable pub check_payload : ℤ → Result (Unit {0})
check_payload (pos n) = require (leb n wire_int32_max) value_error
check_payload (negsuc n) = require (leb n wire_int32_max) value_error

-- the checks of `send_command`, which give the session nonce and the selected ID
unfoldable pub admit_command : ProtocolCommand → ℤ → Option ℤ → BridgeState → Result (String × ℕ)
unfolding bears_receipt connected selected_id check_id check_payload
admit_command kind payload command_id s = do
  require (bears_receipt kind) value_error
  nonce ← connected s.session_nonce
  id ← check_id (selected_id command_id s.next_command_id)
  check_payload payload
  ok (nonce, id)

-- `self.next_command_id = max(self.next_command_id, selected_id + 1)`
unfoldable pub reserve : ℕ → BridgeState → BridgeState
reserve id s = record s { next_command_id = int_max s.next_command_id (pos (suc id)) }

-- a failure whose text holds one of the markers of a time-out
unfoldable pub is_timed_out : Error → Bool
is_timed_out Error.not_published = true
is_timed_out (Error.transport marked) = marked
is_timed_out (Error.proposal marked) = marked
is_timed_out _ = false

-- the `except` clause of `send_command`
unfoldable pub record_failure :
    String → ℕ → ProtocolCommand → Result BridgeSnapshot → BridgeState → BridgeState
unfolding is_timed_out
record_failure nonce id kind (ok _) s = s
record_failure nonce id kind (err e) s =
    if is_timed_out e
    then record s { timed_out_commands = evict (put nonce id kind s.timed_out_commands) }
    else s

unfoldable pub is_receipt : Option BridgeSnapshot → ℕ → ProtocolCommand → BridgeSnapshot → Bool
unfolding is_newer command_value
is_receipt before id kind current =
    is_newer before current
    && same_int current.last_command_id (pos id)
    && same_int current.last_command_kind (command_value kind)

-- What a call of `send_command` leaves: the ID that it submitted, if it did, its result and the
-- state after it.
pub record CommandOutcome : Type 0 where
  pub submitted : Option ℕ
  pub result : Result BridgeSnapshot
  pub state : BridgeState

unfoldable pub transmit :
    Platform → ProtocolCommand → String → ℕ → Answer → BridgeState → CommandOutcome
unfolding exchange reserve record_failure is_receipt validate_goal_string
transmit p kind nonce id answer s =
    let (result, s') =
      exchange p (is_receipt s.last_snapshot id kind) (validate_goal_string nonce) answer
        (reserve id s) in
    record { submitted = some id; result = result; state = record_failure nonce id kind result s' }

unfoldable pub admitted :
    Platform → ProtocolCommand → Answer → BridgeState → Result (String × ℕ) → CommandOutcome
unfolding transmit
admitted p kind answer s (err e) = record { submitted = none; result = err e; state = s }
admitted p kind answer s (ok (nonce, id)) = transmit p kind nonce id answer s

unfoldable pub send_command :
    Platform → ProtocolCommand → ℤ → Option ℤ → Answer → BridgeState → CommandOutcome
unfolding admit_command admitted
send_command p kind payload command_id answer s =
    admitted p kind answer s (admit_command kind payload command_id s)

-- ===== src/Protocol/TimedOut.antt =====
-- The commands that timed out, and their recovery by a late receipt (`_timed_out_commands` of
-- worlds/jak3/agents/protocol.py).
pub mod Recovery
use text.Mathlib.Text.{◌==◌ as str_eq}
use jak3_ap.Prelude.{
  ℕ, ◌==◌, String, Bool, false, not, ◌&&◌, Option, none, some, List, [], ◌∷◌, ltb, length, same_int,
  if◌then◌else◌,
}
use jak3_ap.Protocol.Messages.{ProtocolCommand, command_value, CommandReceipt}

-- an entry of the mapping from (session nonce, command ID) to the command's kind, oldest first
pub record TimedOutCommand : Type 0 where
  pub nonce : String
  pub command_id : ℕ
  pub kind : ProtocolCommand

abbrev pub timed_out_limit : ℕ
timed_out_limit = 64

unfoldable pub has_key : String → ℕ → TimedOutCommand → Bool
has_key nonce id entry = str_eq entry.nonce nonce && entry.command_id == id

-- `commands.get((nonce, id))`
unfoldable pub find : String → ℕ → List TimedOutCommand → Option ProtocolCommand
unfolding has_key
find nonce id [] = none
find nonce id (entry ∷ commands) =
    if has_key nonce id entry then some entry.kind else find nonce id commands

-- `del commands[(nonce, id)]`
unfoldable pub remove : String → ℕ → List TimedOutCommand → List TimedOutCommand
unfolding has_key
remove nonce id [] = []
remove nonce id (entry ∷ commands) =
    let rest = remove nonce id commands in if has_key nonce id entry then rest else entry ∷ rest

-- `commands[(nonce, id)] = kind`: a key that is present keeps its place
unfoldable pub put : String → ℕ → ProtocolCommand → List TimedOutCommand → List TimedOutCommand
unfolding has_key
put nonce id kind [] = record { nonce = nonce; command_id = id; kind = kind } ∷ []
put nonce id kind (entry ∷ commands) =
    let rest = put nonce id kind commands in
    if has_key nonce id entry then record entry { kind = kind } ∷ commands else entry ∷ rest

-- the loop that deletes the oldest entries above the limit
unfoldable pub evict : List TimedOutCommand → List TimedOutCommand
evict [] = []
evict (entry ∷ commands) =
    let rest = evict commands in
    if ltb timed_out_limit (length (entry ∷ commands)) then rest else entry ∷ commands

-- the loop that drops the entries of other game sessions
unfoldable pub keep_session : String → List TimedOutCommand → List TimedOutCommand
keep_session nonce [] = []
keep_session nonce (entry ∷ commands) =
    let rest = keep_session nonce commands in
    if not (str_eq entry.nonce nonce) then rest else entry ∷ rest

unfoldable pub is_receipt_of : CommandReceipt → Option ProtocolCommand → Bool
unfolding command_value
is_receipt_of receipt none = false
is_receipt_of receipt (some kind) = same_int receipt.command_kind (command_value kind)

-- one receipt's pass of the loop over the receipts
unfoldable pub observe_receipt :
    String → CommandReceipt → List TimedOutCommand → List TimedOutCommand
unfolding find remove is_receipt_of
observe_receipt nonce receipt commands =
    if is_receipt_of receipt (find nonce receipt.command_id commands)
    then remove nonce receipt.command_id commands
    else commands

unfoldable pub recover : String → List CommandReceipt → List TimedOutCommand → List TimedOutCommand
unfolding observe_receipt
recover nonce [] commands = commands
recover nonce (receipt ∷ receipts) commands =
    recover nonce receipts (observe_receipt nonce receipt commands)

-- `_observe_command_recovery`
unfoldable pub observe_command_recovery :
    Option String → List CommandReceipt → List TimedOutCommand → List TimedOutCommand
unfolding keep_session recover
observe_command_recovery none receipts commands = commands
observe_command_recovery (some nonce) receipts commands =
    recover nonce receipts (keep_session nonce commands)

-- ===== src/Protocol/TimedOut/Recovery.antt =====
-- What a snapshot's receipts leave of the commands that timed out.
use text.Mathlib.Text.{◌==◌ as str_eq}
use jak3_ap.Prelude.{
  subst, ==_iff, ℕ, ◌==◌, ◌≡◌, ◌↔◌, refl, String, Bool, true, false, ◌&&◌, ◌||◌, Option, none, some,
  List, [], ◌∷◌, All, same_int, Bool-cases, inl, inr, arith, ◌≤◌, length,
}
use jak3_ap.Protocol.Messages.{ProtocolCommand, command_value, CommandReceipt}
use jak3_ap.Protocol.TimedOut.{
  TimedOutCommand, has_key, find, remove, observe_receipt, keep_session, is_receipt_of, recover,
  observe_command_recovery,
}

answers : ℕ → ProtocolCommand → CommandReceipt → Bool
unfolding command_value
answers id kind receipt =
    receipt.command_id == id && same_int receipt.command_kind (command_value kind)

-- one of the receipts is of the command with this ID and this kind
unfoldable pub is_answered : ℕ → ProtocolCommand → List CommandReceipt → Bool
unfolding answers
is_answered id kind [] = false
is_answered id kind (receipt ∷ receipts) = answers id kind receipt || is_answered id kind receipts

find-remove :
    (nonce : String) (id : ℕ) (commands : List TimedOutCommand)
    → find nonce id (remove nonce id commands) ≡ none
unfolding find remove
find-remove nonce id [] = refl
find-remove nonce id (entry ∷ commands) = ground (arith, find-remove nonce id commands)

find-remove_other :
    (nonce : String) (id other : ℕ) (commands : List TimedOutCommand)
    → (other == id) ≡ false
    → find nonce id (remove nonce other commands) ≡ find nonce id commands
unfolding find remove has_key
find-remove_other nonce id other [] differs = refl
find-remove_other nonce id other (entry ∷ commands) differs =
    ground (arith, find-remove_other nonce id other commands differs)

find-keep_session :
    (nonce : String) (id : ℕ) (commands : List TimedOutCommand)
    → find nonce id (keep_session nonce commands) ≡ find nonce id commands
unfolding find keep_session has_key
find-keep_session nonce id [] = refl
find-keep_session nonce id (entry ∷ commands) = ground (arith, find-keep_session nonce id commands)

same_id :
    (nonce : String) (kind : ProtocolCommand) (receipt : CommandReceipt)
    (commands : List TimedOutCommand)
    → (find nonce receipt.command_id (observe_receipt nonce receipt commands) ≡ some kind) ↔ (
        (find nonce receipt.command_id commands ≡ some kind)
        × (same_int receipt.command_kind (command_value kind) ≡ false))
unfolding observe_receipt is_receipt_of
same_id nonce kind receipt commands = ground (arith, find-remove nonce receipt.command_id commands)

other_id :
    (nonce : String) (id : ℕ) (receipt : CommandReceipt) (commands : List TimedOutCommand)
    → (receipt.command_id == id) ≡ false
    → find nonce id (observe_receipt nonce receipt commands) ≡ find nonce id commands
unfolding observe_receipt
other_id nonce id receipt commands differs =
    ground (arith, find-remove_other nonce id receipt.command_id commands differs)

find-observe_receipt :
    (nonce : String) (id : ℕ) (kind : ProtocolCommand) (receipt : CommandReceipt)
    (commands : List TimedOutCommand)
    → (find nonce id (observe_receipt nonce receipt commands) ≡ some kind)
      ↔ ((find nonce id commands ≡ some kind) × (answers id kind receipt ≡ false))
unfolding answers
find-observe_receipt nonce id kind receipt commands = elim (Bool-cases (receipt.command_id == id)) [
  | inl same ↦
      subst
        (λ i.
          (find nonce i (observe_receipt nonce receipt commands) ≡ some kind)
          ↔ ((find nonce i commands ≡ some kind) × (answers i kind receipt ≡ false)))
        ((==_iff receipt.command_id id).0 same)
        (ground (arith, same_id nonce kind receipt commands))
  | inr differs ↦ ground (arith, other_id nonce id receipt commands differs)
]

find-recover :
    (nonce : String) (id : ℕ) (kind : ProtocolCommand) (receipts : List CommandReceipt)
    (commands : List TimedOutCommand)
    → (find nonce id (recover nonce receipts commands) ≡ some kind)
      ↔ ((find nonce id commands ≡ some kind) × (is_answered id kind receipts ≡ false))
unfolding recover is_answered
find-recover nonce id kind [] commands = ground arith
find-recover nonce id kind (receipt ∷ receipts) commands =
    let step = find-observe_receipt nonce id kind receipt commands in
    let rest = find-recover nonce id kind receipts (observe_receipt nonce receipt commands) in
    ground (arith, step, rest)

-- After a snapshot of a game session, the session's commands that count as timed out are those
-- that did before and that no receipt of the snapshot answers.
pub observe_command_recovery_lem :
    (nonce : String) (receipts : List CommandReceipt) (commands : List TimedOutCommand) (id : ℕ)
    (kind : ProtocolCommand)
    → (find nonce id (observe_command_recovery (some nonce) receipts commands) ≡ some kind)
      ↔ ((find nonce id commands ≡ some kind) × (is_answered id kind receipts ≡ false))
unfolding observe_command_recovery
observe_command_recovery_lem nonce receipts commands id kind = ground (
  arith,
  find-recover nonce id kind receipts (keep_session nonce commands),
  find-keep_session nonce id commands,
)

pub OfSession : String → TimedOutCommand → Type 0
OfSession nonce entry = str_eq entry.nonce nonce ≡ true

keep_session-OfSession :
    (nonce : String) (commands : List TimedOutCommand)
    → All (OfSession nonce) (keep_session nonce commands)
unfolding keep_session OfSession
keep_session-OfSession nonce [] = tt
keep_session-OfSession nonce (entry ∷ commands) =
    ground (arith, keep_session-OfSession nonce commands)

remove-OfSession :
    (nonce : String) (id : ℕ) (commands : List TimedOutCommand)
    → All (OfSession nonce) commands
    → All (OfSession nonce) (remove nonce id commands)
unfolding remove OfSession
remove-OfSession nonce id [] h = tt
remove-OfSession nonce id (entry ∷ commands) h =
    ground (arith, remove-OfSession nonce id commands h.1, h.0)

observe_receipt-OfSession :
    (nonce : String) (receipt : CommandReceipt) (commands : List TimedOutCommand)
    → All (OfSession nonce) commands
    → All (OfSession nonce) (observe_receipt nonce receipt commands)
unfolding observe_receipt
observe_receipt-OfSession nonce receipt commands h =
    ground (arith, h, remove-OfSession nonce receipt.command_id commands h)

recover-OfSession :
    (nonce : String) (receipts : List CommandReceipt) (commands : List TimedOutCommand)
    → All (OfSession nonce) commands
    → All (OfSession nonce) (recover nonce receipts commands)
unfolding recover
recover-OfSession nonce [] commands h = h
recover-OfSession nonce (receipt ∷ receipts) commands h =
    recover-OfSession nonce receipts (observe_receipt nonce receipt commands)
      (observe_receipt-OfSession nonce receipt commands h)

-- Only commands of the snapshot's game session count as timed out after it.
pub observe_command_recovery-OfSession :
    (nonce : String) (receipts : List CommandReceipt) (commands : List TimedOutCommand)
    → All (OfSession nonce) (observe_command_recovery (some nonce) receipts commands)
unfolding observe_command_recovery
observe_command_recovery-OfSession nonce receipts commands =
    recover-OfSession nonce receipts (keep_session nonce commands)
      (keep_session-OfSession nonce commands)

length-remove :
    (nonce : String) (id : ℕ) (commands : List TimedOutCommand)
    → length (remove nonce id commands) ≤ length commands
unfolding remove
length-remove nonce id [] = omega arith
length-remove nonce id (entry ∷ commands) = ground (arith, length-remove nonce id commands)

length-keep_session :
    (nonce : String) (commands : List TimedOutCommand)
    → length (keep_session nonce commands) ≤ length commands
unfolding keep_session
length-keep_session nonce [] = omega arith
length-keep_session nonce (entry ∷ commands) = ground (arith, length-keep_session nonce commands)

length-observe_receipt :
    (nonce : String) (receipt : CommandReceipt) (commands : List TimedOutCommand)
    → length (observe_receipt nonce receipt commands) ≤ length commands
unfolding observe_receipt
length-observe_receipt nonce receipt commands =
    ground (arith, length-remove nonce receipt.command_id commands)

length-recover :
    (nonce : String) (receipts : List CommandReceipt) (commands : List TimedOutCommand)
    → length (recover nonce receipts commands) ≤ length commands
unfolding recover
length-recover nonce [] commands = omega arith
length-recover nonce (receipt ∷ receipts) commands = omega (
  arith,
  length-observe_receipt nonce receipt commands,
  length-recover nonce receipts (observe_receipt nonce receipt commands),
)

pub length-observe_command_recovery :
    (nonce : Option String) (receipts : List CommandReceipt) (commands : List TimedOutCommand)
    → length (observe_command_recovery nonce receipts commands) ≤ length commands
unfolding observe_command_recovery
length-observe_command_recovery none receipts commands = omega arith
length-observe_command_recovery (some nonce) receipts commands = omega (
  arith,
  length-keep_session nonce commands,
  length-recover nonce receipts (keep_session nonce commands),
)

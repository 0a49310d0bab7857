-- ===== src/Protocol/Contract.antt =====
-- `validate_compatibility` and the version checks of worlds/jak3/agents/protocol.py.
pub mod Matches
use text.Mathlib.Text.{◌==◌ as str_eq}
use jak3_ap.Prelude.{
  ℤ, pos, same_int, Bool, true, false, not, ◌||◌, Option, none, some, Result, require, ◌>>◌,
  protocol_mismatch, integration_mismatch, contract_mismatch,
}
use jak3_ap.Persistence.Identity.{Platform}
use jak3_ap.Protocol.Messages.{BridgeSnapshot}

abbrev pub protocol_version : ℤ
protocol_version = pos 3

abbrev pub game_integration_version : ℤ
game_integration_version = pos 2

-- the fields of `_EXPECTED_CONTRACT`, in its order
unfoldable pub validate_contract : Platform → BridgeSnapshot → Result (Unit {0})
validate_contract p snapshot = do
  require (same_int snapshot.bridge_runtime_version (pos 5)) contract_mismatch
  require snapshot.items_module_active contract_mismatch
  require snapshot.locations_module_active contract_mismatch
  require snapshot.reward_module_active contract_mismatch
  require (same_int snapshot.state_schema_version (pos 1)) contract_mismatch
  require (same_int snapshot.slot_data_version (pos 2)) contract_mismatch
  require (same_int snapshot.item_table_version (pos 2)) contract_mismatch
  require (same_int snapshot.location_table_version (pos 2)) contract_mismatch
  require (same_int snapshot.mission_table_version (pos 1)) contract_mismatch
  require (str_eq snapshot.item_table_hash p.item_table_hash) contract_mismatch
  require (str_eq snapshot.location_table_hash p.location_table_hash) contract_mismatch
  require (str_eq snapshot.mission_table_hash p.mission_table_hash) contract_mismatch

unfoldable pub validate_compatibility : Platform → BridgeSnapshot → Result (Unit {0})
unfolding validate_contract
validate_compatibility p snapshot = do
  require (same_int snapshot.protocol_version protocol_version) protocol_mismatch
  require (same_int snapshot.game_integration_version game_integration_version) integration_mismatch
  validate_contract p snapshot

is_version : ℤ → Option ℤ → Bool
is_version expected none = false
is_version expected (some found) = same_int found expected

is_missing : Option ℤ → Bool
is_missing none = true
is_missing (some _) = false

-- the checks of `_wait_for` on the versions that `read_reported_versions` found
unfoldable pub validate_reported : Option ℤ × Option ℤ → Result (Unit {0})
unfolding is_version is_missing
validate_reported (protocol, integration) = do
  require (is_missing protocol || is_version protocol_version protocol) protocol_mismatch
  require
      (not (is_version protocol_version protocol)
        || (is_missing integration || is_version game_integration_version integration))
      integration_mismatch

-- ===== src/Protocol/Contract/Matches.antt =====
-- The snapshots that `validate_compatibility` accepts.
use text.Mathlib.TextEquality.{eq_iff}
use jak3_ap.Prelude.{refl, ◌≡◌, ◌↔◌, pos, true, ok, arith}
use jak3_ap.Persistence.Identity.{Platform}
use jak3_ap.Protocol.Messages.{BridgeSnapshot}
use jak3_ap.Protocol.Contract.{validate_contract, validate_compatibility}

-- what the client and the game have agreed on
pub record Matches (p : Platform) (snapshot : BridgeSnapshot) : Type 0 where
  pub protocol : snapshot.protocol_version ≡ pos 3
  pub integration : snapshot.game_integration_version ≡ pos 2
  pub runtime : snapshot.bridge_runtime_version ≡ pos 5
  pub items_active : snapshot.items_module_active ≡ true
  pub locations_active : snapshot.locations_module_active ≡ true
  pub reward_active : snapshot.reward_module_active ≡ true
  pub state_schema : snapshot.state_schema_version ≡ pos 1
  pub slot_data : snapshot.slot_data_version ≡ pos 2
  pub item_table : snapshot.item_table_version ≡ pos 2
  pub location_table : snapshot.location_table_version ≡ pos 2
  pub mission_table : snapshot.mission_table_version ≡ pos 1
  pub item_hash : snapshot.item_table_hash ≡ p.item_table_hash
  pub location_hash : snapshot.location_table_hash ≡ p.location_table_hash
  pub mission_hash : snapshot.mission_table_hash ≡ p.mission_table_hash

-- The compatibility checks pass just on the snapshots that agree with the client in every version,
-- module and table hash.
pub validate_compatibility_iff :
    (p : Platform) (snapshot : BridgeSnapshot)
    → (validate_compatibility p snapshot ≡ ok tt) ↔ Matches p snapshot
unfolding validate_compatibility validate_contract
validate_compatibility_iff p snapshot = (
  λ h.
      let item = eq_iff snapshot.item_table_hash p.item_table_hash in
      let location = eq_iff snapshot.location_table_hash p.location_table_hash in
      let mission = eq_iff snapshot.mission_table_hash p.mission_table_hash in
      ground (arith, h, item, location, mission),
  λ m.
      let item = (eq_iff snapshot.item_table_hash p.item_table_hash).1 m.item_hash in
      let location =
        (eq_iff snapshot.location_table_hash p.location_table_hash).1 m.location_hash in
      let mission = (eq_iff snapshot.mission_table_hash p.mission_table_hash).1 m.mission_hash in
      rw
        (
          m.protocol, m.integration, m.runtime, m.items_active, m.locations_active, m.reward_active,
          m.state_schema, m.slot_data, m.item_table, m.location_table, m.mission_table, item,
          location, mission,
        )
        refl,
)

-- ===== src/Persistence/Identity.antt =====
-- The checks of `validate_state` (worlds/jak3/persistence.py) on a state's versions, identity and slot
-- binding. The tests of a field's Python type, and of an ℕ against 0, are carried by the types.
use Prim.Native.Char.{code}
use text.Mathlib.Text.{◌==◌ as str_eq}
use jak3_ap.Prelude.{
  ℕ, suc, String, Bool, true, false, not, ◌&&◌, ◌||◌, Option, none, some, ltb, leb, ◌==◌, Result,
  ok, err, corruption, compatibility, binding, ◌>>◌, require,
}
use jak3_ap.Persistence.State.{
  NativeSaveDescriptor, StateContract, AuthenticatedSlot, PersistentState,
}

-- What the validator takes from outside the modelled code: whether a text is the canonical text of
-- a UUID (the standard library's `uuid`), and the SHA-256 hashes of the tables and the options.
pub record Platform : Type 0 where
  pub canonical_uuid : String → Bool
  pub item_table_hash : String
  pub location_table_hash : String
  pub mission_table_hash : String
  pub resolved_options_hash : String

abbrev pub native_save_slot_count : ℕ
native_save_slot_count = 4

-- the constants of worlds/jak3/versions.py and the hashes
unfoldable pub expected_contract : Platform → StateContract
expected_contract p = record {
  state_schema_version = 1;
  protocol_version = 3;
  game_integration_version = 2;
  slot_data_version = 2;
  item_table_hash = p.item_table_hash;
  location_table_hash = p.location_table_hash;
  mission_table_hash = p.mission_table_hash;
  resolved_options_hash = p.resolved_options_hash;
  design_version = "0.3";
}

-- the loop over the nine fields of a contract, which raises at the first difference
unfoldable pub compare_contract : StateContract → StateContract → Result (Unit {0})
compare_contract found expected = do
  require (found.state_schema_version == expected.state_schema_version) compatibility
  require (found.protocol_version == expected.protocol_version) compatibility
  require (found.game_integration_version == expected.game_integration_version) compatibility
  require (found.slot_data_version == expected.slot_data_version) compatibility
  require (str_eq found.item_table_hash expected.item_table_hash) compatibility
  require (str_eq found.location_table_hash expected.location_table_hash) compatibility
  require (str_eq found.mission_table_hash expected.mission_table_hash) compatibility
  require (str_eq found.resolved_options_hash expected.resolved_options_hash) compatibility
  require (str_eq found.design_version expected.design_version) compatibility

-- `_validate_uuid`
unfoldable pub validate_uuid : Platform → String → Result (Unit {0})
validate_uuid p text = require (p.canonical_uuid text) corruption

-- the characters of a text, counted as Python's `len` counts them
unfoldable pub text_length : String → ℕ
text_length String.[] = 0
text_length (String.◌∷◌ c s) = suc (text_length s)

-- `any(ord(character) < 32 or ord(character) == 127 for character in value)`
unfoldable pub has_control : String → Bool
has_control String.[] = false
has_control (String.◌∷◌ c s) = (ltb (code c) 32 || code c == 127) || has_control s

-- `_validate_identity_text`
unfoldable pub validate_identity_text : ℕ → String → Result (Unit {0})
unfolding text_length has_control
validate_identity_text maximum text = do
  require (ltb 0 (text_length text) && leb (text_length text) maximum) corruption
  require (not (has_control text)) corruption

-- `_validate_native_save_slot`, with the error class `StateCorruptionError`
unfoldable pub validate_native_save_slot : ℕ → Result (Unit {0})
validate_native_save_slot slot = require (ltb slot native_save_slot_count) corruption

-- the checks against the loaded native save
unfoldable pub validate_native_save :
    PersistentState → Option NativeSaveDescriptor → Result (Unit {0})
validate_native_save s none = ok tt
validate_native_save s (some native_save) = do
  require (str_eq s.native_save_identity native_save.identity) binding
  require (s.native_save_slot == native_save.slot) binding

bound_fields : Option String → Option ℕ → Option ℕ → Option String → Result Bool
bound_fields none none none none = ok false
bound_fields (some a) (some b) (some c) (some d) = ok true
bound_fields _ _ _ _ = err corruption

-- the property `is_bound`; a partial binding raises
unfoldable pub is_bound : PersistentState → Result Bool
unfolding bound_fields
is_bound s = bound_fields s.seed_identifier s.team s.slot s.slot_name

-- the texts of a bound state
unfoldable pub validate_binding_text : Option String → Option String → Result (Unit {0})
unfolding validate_identity_text
validate_binding_text (some seed) (some name) =
    validate_identity_text 128 seed >> validate_identity_text 128 name
validate_binding_text _ _ = ok tt

unfoldable pub same_text : Option String → String → Bool
same_text none b = false
same_text (some a) b = str_eq a b

unfoldable pub same_number : Option ℕ → ℕ → Bool
same_number none b = false
same_number (some a) b = a == b

-- `_validate_authenticated_binding`
unfoldable pub validate_authenticated_binding :
    PersistentState → AuthenticatedSlot → Result (Unit {0})
unfolding compare_contract same_text same_number
validate_authenticated_binding s a = do
  require (same_text s.seed_identifier a.seed_identifier) binding
  require (same_number s.team a.team) binding
  require (same_number s.slot a.slot) binding
  require (same_text s.slot_name a.slot_name) binding
  compare_contract s.contract a.contract

-- the two checks of the slot binding in `validate_state`
unfoldable pub validate_binding :
    PersistentState → Option AuthenticatedSlot → Bool → Result (Unit {0})
unfolding validate_binding_text validate_authenticated_binding
validate_binding s authenticated false = ok tt
validate_binding s none true = validate_binding_text s.seed_identifier s.slot_name
validate_binding s (some a) true = do
  validate_binding_text s.seed_identifier s.slot_name
  validate_authenticated_binding s a

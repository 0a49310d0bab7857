-- ===== src/Encoding/Authorization.antt =====
-- The save-identity authorization files of worlds/jak3/persistence.py: `authorize_save_identity`,
-- `_load_save_identity_authorization` and `_validate_save_identity_authorization`. A file is the
-- option of its bytes; errors of the operating system while it is read or written are left out.
pub mod RoundTrip
pub mod OneSlot
use text.Mathlib.Text.{◌==◌ as str_eq}
use jak3_ap.Prelude.{
  ℕ, ◌==◌, pos, same_int, String, Bool, not, ◌&&◌, Option, none, some, List, [], ◌∷◌, Result, ok,
  err, binding, corruption, compatibility, value_error, ◌>>=◌, ◌>>◌, require,
}
use jak3_ap.Value.{Value, Fields, get, has_just_keys}
use jak3_ap.Persistence.State.{AuthenticatedSlot}
use jak3_ap.Persistence.Identity.{Platform, validate_uuid, validate_identity_text}
use jak3_ap.Encoding.Json.{Library, canonical_json_bytes}
use jak3_ap.Encoding.Payload.Write.{fields_of}
use jak3_ap.Encoding.Payload.Read.{read_text, read_nat, read_int, require_mapping}
use jak3_ap.Encoding.Envelope.{
  checksum_algorithm, envelope_keys, or_raise, same_text, checksum_of, envelope_of,
  serialize_checked_envelope,
}

abbrev pub save_identity_authorization_format : String
save_identity_authorization_format = "jak3-ap-save-identity-authorization"

abbrev pub save_identity_authorization_version : ℕ
save_identity_authorization_version = 1

abbrev pub save_identity_authorization_keys : List String
save_identity_authorization_keys =
    "authorization_version" ∷ "native_save_identity" ∷ "seed_identifier" ∷ "team" ∷ "slot"
    ∷ "slot_name" ∷ []

-- `_save_identity_authorization_payload`
unfoldable pub authorization_payload : String → AuthenticatedSlot → Fields
unfolding fields_of
authorization_payload native_save_identity a = fields_of (
    ("authorization_version", Value.int (pos save_identity_authorization_version))
    ∷ ("native_save_identity", Value.str native_save_identity)
    ∷ ("seed_identifier", Value.str a.seed_identifier)
    ∷ ("team", Value.int (pos a.team))
    ∷ ("slot", Value.int (pos a.slot))
    ∷ ("slot_name", Value.str a.slot_name)
    ∷ [])

-- the payload of an authorization, after the check of its version
pub record SaveIdentityAuthorization : Type 0 where
  pub native_save_identity : String
  pub seed_identifier : String
  pub team : ℕ
  pub slot : ℕ
  pub slot_name : String

-- the checks of the values
unfoldable pub read_authorization : Platform → (String → Value) → Result SaveIdentityAuthorization
unfolding read_text read_nat read_int validate_uuid validate_identity_text
read_authorization p at = do
  version ← read_int (at "authorization_version")
  require (same_int version (pos save_identity_authorization_version)) compatibility
  native_save_identity ← read_text (at "native_save_identity")
  validate_uuid p native_save_identity
  seed_identifier ← read_text (at "seed_identifier")
  validate_identity_text 256 seed_identifier
  team ← read_nat (at "team")
  slot ← read_nat (at "slot")
  slot_name ← read_text (at "slot_name")
  validate_identity_text 128 slot_name
  ok (record {
    native_save_identity = native_save_identity;
    seed_identifier = seed_identifier;
    team = team;
    slot = slot;
    slot_name = slot_name;
  })

-- the checks of the envelope, which give its payload
unfoldable pub open_authorization : Library → Fields → Result Fields
unfolding same_text
open_authorization lib fs = do
  require (has_just_keys envelope_keys fs) corruption
  require (same_text save_identity_authorization_format (get "format" fs)) compatibility
  require (same_text checksum_algorithm (get "checksum_algorithm" fs)) compatibility
  payload ← require_mapping (get "payload" fs)
  require (has_just_keys save_identity_authorization_keys payload) corruption
  checksum ← checksum_of (get "payload_sha256" fs)
  canonical ← or_raise corruption (canonical_json_bytes lib (Value.dict payload))
  require (str_eq checksum (lib.sha256 canonical)) corruption
  ok payload

-- `_load_save_identity_authorization`
unfoldable pub load_save_identity_authorization :
    (lib : Library) → Platform → Option (Library.Bytes lib) → Result SaveIdentityAuthorization
load_save_identity_authorization lib p none = err binding
load_save_identity_authorization lib p (some data_bytes) = do
  require (not (lib.is_empty data_bytes)) corruption
  fs ← envelope_of (lib.loads data_bytes)
  payload ← open_authorization lib fs
  read_authorization p (λ key. get key payload)

-- `_validate_save_identity_authorization`: both mappings have the six keys and the same version
unfoldable pub validate_save_identity_authorization :
    SaveIdentityAuthorization → String → AuthenticatedSlot → Result (Unit {0})
validate_save_identity_authorization authorization native_save_identity a =
    require
      (str_eq authorization.native_save_identity native_save_identity
        && str_eq authorization.seed_identifier a.seed_identifier
        && authorization.team == a.team
        && authorization.slot == a.slot
        && str_eq authorization.slot_name a.slot_name)
      binding

-- `_require_save_identity_authorization`, over the file at the path of the identity
unfoldable pub require_save_identity_authorization :
    (lib : Library)
    → Platform
    → Option (Library.Bytes lib)
    → String
    → AuthenticatedSlot
    → Result (Unit {0})
require_save_identity_authorization lib p file native_save_identity a = do
  validate_uuid p native_save_identity
  authorization ← load_save_identity_authorization lib p file
  validate_save_identity_authorization authorization native_save_identity a

write_authorization : {B : Type 0} → Result B → Result (Unit {0}) × Option B
write_authorization (err e) = (err e, none)
write_authorization (ok serialized) = (ok tt, some serialized)

authorize_over :
    (lib : Library)
    → Platform
    → String
    → AuthenticatedSlot
    → Result (Library.Bytes lib)
    → Option (Library.Bytes lib)
    → Result (Unit {0}) × Option (Library.Bytes lib)
unfolding write_authorization
authorize_over lib p native_save_identity a serialized none = write_authorization serialized
authorize_over lib p native_save_identity a serialized (some existing) = (
  (serialized >>= (λ _. load_save_identity_authorization lib p (some existing)))
      >>= (λ authorization.
          validate_save_identity_authorization authorization native_save_identity a),
  some existing,
)

-- `authorize_save_identity`: the result, and the file after it
unfoldable pub authorize_save_identity :
    (lib : Library)
    → Platform
    → String
    → AuthenticatedSlot
    → Option (Library.Bytes lib)
    → Result (Unit {0}) × Option (Library.Bytes lib)
unfolding authorize_over
authorize_save_identity lib p native_save_identity a file =
    authorize_over lib p native_save_identity a
      (validate_uuid p native_save_identity
        >> serialize_checked_envelope lib save_identity_authorization_format
            (authorization_payload native_save_identity a))
      file

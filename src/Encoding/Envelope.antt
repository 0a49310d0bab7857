-- ===== src/Encoding/Envelope.antt =====
-- `serialize_state` and `deserialize_state` of worlds/jak3/persistence.py: the checksummed envelope.
pub mod RoundTrip
pub mod Accepted
pub mod Sealed
use text.Mathlib.Text.{◌==◌ as str_eq}
use jak3_ap.Prelude.{
  ℕ, ◌==◌, String, Bool, true, false, not, ◌||◌, Option, none, some, List, [], ◌∷◌, Error, Result,
  ok, err, corruption, compatibility, value_error, ◌>>=◌, ◌>>◌, require, if◌then◌else◌,
}
use jak3_ap.Value.{Value, Fields, get, has_key, has_just_keys}
use jak3_ap.Persistence.State.{PersistentState}
use jak3_ap.Persistence.Identity.{Platform, text_length}
use jak3_ap.Persistence.Validate.{validate_state}
use jak3_ap.Encoding.Json.{Library, canonical_json_bytes}
use jak3_ap.Encoding.Payload.Write.{to_payload}
use jak3_ap.Encoding.Payload.Read.{require_mapping}
use jak3_ap.Encoding.Payload.State.{from_payload}

abbrev pub state_format : String
state_format = "jak3-ap-state"

abbrev pub checksum_algorithm : String
checksum_algorithm = "sha256"

abbrev pub envelope_keys : List String
envelope_keys = "format" ∷ "checksum_algorithm" ∷ "payload_sha256" ∷ "payload" ∷ []

-- the `TypeError` of `json_safe`, where the caller turns it into `e`
unfoldable pub or_raise {ℓ} : {A : Type ℓ} → Error → Option A → Result A
or_raise e none = err e
or_raise e (some a) = ok a

unfoldable pub envelope : String → String → Fields → Fields
envelope format checksum payload = Fields.field (Value.str "format") (Value.str format) (
    Fields.field (Value.str "checksum_algorithm") (Value.str checksum_algorithm) (
      Fields.field (Value.str "payload_sha256") (Value.str checksum)
        (Fields.field (Value.str "payload") (Value.dict payload) Fields.end)))

-- `_serialize_checked_envelope`
unfoldable pub serialize_checked_envelope :
    (lib : Library) → String → Fields → Result (Library.Bytes lib)
serialize_checked_envelope lib format payload = do
  canonical ← or_raise value_error (canonical_json_bytes lib (Value.dict payload))
  or_raise value_error
      (canonical_json_bytes lib (Value.dict (envelope format (lib.sha256 canonical) payload)))

unfoldable pub serialize_state :
    (lib : Library) → Platform → PersistentState → Result (Library.Bytes lib)
serialize_state lib p s =
    validate_state p s none none >> serialize_checked_envelope lib state_format (to_payload lib s)

unfoldable pub same_text : String → Value → Bool
same_text text (Value.str s) = str_eq s text
same_text text _ = false

-- the envelope's field, where it is there, has the text
unfoldable pub has_text : String → String → Fields → Bool
unfolding same_text
has_text key text fs = not (has_key key fs) || same_text text (get key fs)

unfoldable pub checksum_of : Value → Result String
checksum_of (Value.str s) = require (text_length s == 64) corruption >> ok s
checksum_of _ = err corruption

-- the checks of `deserialize_state` on the envelope, which give its payload
unfoldable pub open_envelope : Library → Fields → Result Fields
open_envelope lib fs = do
  require (has_text "format" state_format fs) compatibility
  require (has_text "checksum_algorithm" checksum_algorithm fs) compatibility
  require (has_just_keys envelope_keys fs) corruption
  payload ← require_mapping (get "payload" fs)
  checksum ← checksum_of (get "payload_sha256" fs)
  canonical ← or_raise corruption (canonical_json_bytes lib (Value.dict payload))
  require (str_eq checksum (lib.sha256 canonical)) corruption
  ok payload

unfoldable pub envelope_of : Option Value → Result Fields
envelope_of (some (Value.dict fs)) = ok fs
envelope_of _ = err corruption

unfoldable pub deserialize_state :
    (lib : Library) → Platform → Library.Bytes lib → Result PersistentState
deserialize_state lib p data_bytes = do
  require (not (lib.is_empty data_bytes)) corruption
  fs ← envelope_of (lib.loads data_bytes)
  payload ← open_envelope lib fs
  from_payload lib p payload

-- ===== src/Tests/Encoding.antt =====
-- A sample library for the state encoding, and states written and read with it.
use text.Mathlib.Text.{◌==◌ as str_eq}
use jak3_ap.Prelude.{ℕ, pos, zero, suc, ◌≡◌, ◌≢◌, refl, ap, String, true, false, none, some, ok}
use jak3_ap.Value.{Value, Fields, validate_json_value}
use jak3_ap.Persistence.State.{AuthenticatedSlot}
use jak3_ap.Persistence.Identity.{
  text_length, expected_contract, validate_uuid, validate_identity_text,
}
use jak3_ap.Encoding.Authorization.{authorize_save_identity, require_save_identity_authorization}
use jak3_ap.Encoding.Authorization.OneSlot.{SameSlot, require_save_identity_authorization-SameSlot}
use jak3_ap.Encoding.Authorization.RoundTrip.{require_save_identity_authorization-authorize}
use jak3_ap.Outbox.Transition.{IsValid}
use jak3_ap.Encoding.Json.{Library, sort_fields, canonical_json_bytes}
use jak3_ap.Encoding.Json.Reordered.{in_dict, swapped}
use jak3_ap.Encoding.Json.Canonical.{canonical_json_bytes-Reordered}
use jak3_ap.Encoding.Payload.Write.{to_payload}
use jak3_ap.Encoding.Payload.State.{from_payload}
use jak3_ap.Encoding.Payload.RoundTrip.{canonical_state, from_payload-to_payload}
use jak3_ap.Encoding.Envelope.{serialize_state, deserialize_state}
use jak3_ap.Encoding.Envelope.RoundTrip.{deserialize_state-serialize_state}
use jak3_ap.Encoding.Envelope.Accepted.{Seals, deserialize_state-Seals}
use jak3_ap.Tests.Sample.{platform, state_id, playing, playing-IsValid}

abbrev pub digest : String
digest = "0000000000000000000000000000000000000000000000000000000000000000"

-- a number as so many strokes
pub strokes : ℕ → String
strokes zero = ""
strokes (suc n) = String.◌∷◌ "I" (strokes n)

pub count_strokes : (n : ℕ) → text_length (strokes n) ≡ n
unfolding strokes text_length
count_strokes zero = refl
count_strokes (suc n) = ap suc (count_strokes n)

pub digest_length : text_length digest ≡ 64
unfolding text_length
digest_length = refl

-- documents that are the values themselves
abbrev pub plain_library : Library
plain_library = record {
  Bytes = Value;
  is_empty = λ b. false;
  dumps = λ v. v;
  loads = λ b. some b;
  sha256 = λ b. digest;
  decimal = strokes;
  parse_decimal = λ s. some (text_length s);
  dumps_not_empty = λ v. refl;
  loads_dumps = λ v h. refl;
  sha256_length = λ b. digest_length;
  parse_decimal_decimal = λ n. ap some (count_strokes n);
}

from_payload-to_payload_example :
    from_payload plain_library platform (sort_fields (to_payload plain_library playing))
    ≡ ok (canonical_state playing)
from_payload-to_payload_example =
    from_payload-to_payload plain_library platform playing playing-IsValid

deserialize_state-serialize_state_example :
    (bytes : Value) × (serialize_state plain_library platform playing ≡ ok bytes)
    × (deserialize_state plain_library platform bytes ≡ ok (canonical_state playing))
deserialize_state-serialize_state_example =
    deserialize_state-serialize_state plain_library platform playing playing-IsValid

abbrev written : Value
written = deserialize_state-serialize_state_example.0

deserialize_state-Seals_example :
    (document payload : Fields) × (some written ≡ some (Value.dict document))
    × Seals plain_library document payload
    × (from_payload plain_library platform payload ≡ ok (canonical_state playing))
    × IsValid platform (canonical_state playing)
deserialize_state-Seals_example =
    deserialize_state-Seals plain_library platform written (canonical_state playing)
      deserialize_state-serialize_state_example.2

-- a mapping whose keys are out of order
abbrev unsorted : Value
unsorted = Value.dict (
    Fields.field (Value.str "b") (Value.int (pos 1))
      (Fields.field (Value.str "a") Value.null Fields.end))

unsorted-IsJson : validate_json_value unsorted ≡ ok tt
unfolding validate_json_value
unsorted-IsJson = refl

-- the same mapping with its keys in order
abbrev sorted : Value
sorted = Value.dict (
    Fields.field (Value.str "a") Value.null
      (Fields.field (Value.str "b") (Value.int (pos 1)) Fields.end))

sorted-IsJson : validate_json_value sorted ≡ ok tt
unfolding validate_json_value
sorted-IsJson = refl

keys_differ : ◌≢◌ {A = String} "b" "a"
keys_differ e = cc (is_b e)
  where
    is_b : ◌≡◌ {A = String} "b" "a" → true ≡ false
    is_b e = ap (λ s. str_eq s "b") e

canonical_json_bytes-Reordered_example :
    (bytes : Value) × (read : Value) × (canonical_json_bytes plain_library unsorted ≡ some bytes)
    × (canonical_json_bytes plain_library sorted ≡ some bytes)
    × (some bytes ≡ some read)
    × (canonical_json_bytes plain_library read ≡ some bytes)
canonical_json_bytes-Reordered_example =
    canonical_json_bytes-Reordered plain_library unsorted sorted unsorted-IsJson sorted-IsJson
      (in_dict (swapped keys_differ))

-- a slot for which save identities are authorized
abbrev pub jak : AuthenticatedSlot
jak = record {
  seed_identifier = "seed";
  team = 0;
  slot = 1;
  slot_name = "Jak";
  contract = expected_contract platform;
}

id_valid : validate_uuid platform state_id ≡ ok tt
unfolding validate_uuid
id_valid = refl

seed_valid : validate_identity_text 256 jak.seed_identifier ≡ ok tt
unfolding validate_identity_text
seed_valid = refl

name_valid : validate_identity_text 128 jak.slot_name ≡ ok tt
unfolding validate_identity_text
name_valid = refl

require_save_identity_authorization-authorize_example :
    (bytes : Value) × (authorize_save_identity plain_library platform state_id jak none
      ≡ (ok tt, some bytes))
    × (require_save_identity_authorization plain_library platform (some bytes) state_id jak ≡ ok tt)
    × (authorize_save_identity plain_library platform state_id jak (some bytes)
        ≡ (ok tt, some bytes))
require_save_identity_authorization-authorize_example =
    require_save_identity_authorization-authorize plain_library platform state_id jak id_valid
      seed_valid name_valid

-- the file of the authorization, which passes the check
pub jak_authorized :
    (bytes : Value) × (require_save_identity_authorization plain_library platform
        (some bytes)
        state_id
        jak
      ≡ ok tt)
jak_authorized =
    let (bytes, _, passes, _) =
      require_save_identity_authorization-authorize plain_library platform state_id jak id_valid
        seed_valid name_valid in
    (bytes, passes)

require_save_identity_authorization-SameSlot_example : (state_id ≡ state_id) × SameSlot jak jak
require_save_identity_authorization-SameSlot_example =
    require_save_identity_authorization-SameSlot plain_library platform (some jak_authorized.0)
      state_id state_id jak jak jak_authorized.1 jak_authorized.1

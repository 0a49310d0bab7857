-- ===== src/Repository/Files.antt =====
-- The state encoding of worlds/jak3/persistence.py fills the repository's interface.
use jak3_ap.Prelude.{refl}
use jak3_ap.Persistence.Identity.{Platform}
use jak3_ap.Encoding.Json.{Library}
use jak3_ap.Encoding.Payload.RoundTrip.{canonical_state, canonical_state_fits}
use jak3_ap.Encoding.Envelope.{serialize_state, deserialize_state}
use jak3_ap.Encoding.Envelope.RoundTrip.{deserialize_state-serialize_state}
use jak3_ap.Encoding.Envelope.Accepted.{deserialize_state-IsValid}
use jak3_ap.Repository.{Codec}

abbrev pub state_files : (lib : Library) (p : Platform) → Codec p
unfolding canonical_state
state_files lib p = record {
  Bytes = lib.Bytes;
  serialize = serialize_state lib p;
  deserialize = deserialize_state lib p;
  canonical = canonical_state;
  canonical_same = λ s. (refl, refl);
  canonical_fits = canonical_state_fits p;
  read_back = deserialize_state-serialize_state lib p;
  read_valid = deserialize_state-IsValid lib p;
}

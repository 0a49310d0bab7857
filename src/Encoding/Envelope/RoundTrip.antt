-- ===== src/Encoding/Envelope/RoundTrip.antt =====
-- A state that was written reads back, and what is read is valid.
use text.Mathlib.Text.{◌==◌ as str_eq}
use text.Mathlib.TextPositions.{eq_refl}
use jak3_ap.Prelude.{◌≡◌, refl, ap, ◌∙◌, String, true, false, some, ok, arith}
use jak3_ap.Value.{Value, Fields, get, keys_are_text, has_just_keys, validate_json_value}
use jak3_ap.Persistence.State.{PersistentState}
use jak3_ap.Persistence.Identity.{Platform}
use jak3_ap.Outbox.Transition.{IsValid}
use jak3_ap.Encoding.Json.{Library, canonical_json_bytes, sort_keys, sort_fields}
use jak3_ap.Encoding.Json.Reading.{has_just_keys-sort_fields}
use jak3_ap.Encoding.Json.Canonical.{canonical_again}
use jak3_ap.Encoding.Json.Valid.{validate_json_value-sort_keys}
use jak3_ap.Encoding.Payload.Write.{to_payload}
use jak3_ap.Encoding.Payload.Read.{require_mapping}
use jak3_ap.Encoding.Payload.State.{from_payload}
use jak3_ap.Encoding.Payload.IsJson.{to_payload-IsJson}
use jak3_ap.Encoding.Payload.Parts.{require_mapping-sort}
use jak3_ap.Encoding.Payload.RoundTrip.{
  canonical_state, payload_keys, parts, from_payload-to_payload,
}
use jak3_ap.Encoding.Envelope.{
  state_format, checksum_algorithm, envelope_keys, has_text, same_text, or_raise, checksum_of,
  open_envelope, envelope_of, serialize_state, deserialize_state,
}
use jak3_ap.Encoding.Envelope.Sealed.{
  checksum, sealed, sealed_keys, sealed_json, checksum_of_lem, format_found, algorithm_found,
  checksum_found, payload_found, written, loaded,
}

module _ (lib : Library) where
  has_text_lem :
      (key text : String) (fs : Fields) → get key fs ≡ Value.str text → has_text key text fs ≡ true
  unfolding has_text same_text
  has_text_lem key text fs h = rw h (rw (eq_refl text) (ground arith))

  open_lem :
      (fs payload : Fields) (checksum : String) (bytes : Library.Bytes lib)
      → has_text "format" state_format fs ≡ true
      → has_text "checksum_algorithm" checksum_algorithm fs ≡ true
      → has_just_keys envelope_keys fs ≡ true
      → require_mapping (get "payload" fs) ≡ ok payload
      → checksum_of (get "payload_sha256" fs) ≡ ok checksum
      → canonical_json_bytes lib (Value.dict payload) ≡ some bytes
      → str_eq checksum (lib.sha256 bytes) ≡ true
      → open_envelope lib fs ≡ ok payload
  unfolding open_envelope or_raise
  open_lem fs payload checksum bytes h1 h2 h3 h4 h5 h6 h7 = rw (h1, h2, h3, h4, h5, h6, h7) refl

  module _ (payload : Fields) (texts : keys_are_text payload ≡ true)
      (json : validate_json_value (Value.dict payload) ≡ ok tt) where
    -- the envelope that holds the payload opens, and gives it back sorted
    opened :
        open_envelope lib (sort_fields (sealed lib state_format payload texts json))
        ≡ ok (sort_fields payload)
    opened =
        open_lem (sort_fields (sealed lib state_format payload texts json)) (sort_fields payload)
          (checksum lib state_format payload texts json)
          (lib.dumps (sort_keys (Value.dict payload)))
          (has_text_lem "format" state_format
            (sort_fields (sealed lib state_format payload texts json))
            (format_found lib state_format payload texts json))
          (has_text_lem "checksum_algorithm" checksum_algorithm
            (sort_fields (sealed lib state_format payload texts json))
            (algorithm_found lib state_format payload texts json))
          (has_just_keys-sort_fields envelope_keys (sealed lib state_format payload texts json)
            ∙ (sealed_keys lib state_format payload texts json).1)
          (ap require_mapping (payload_found lib state_format payload texts json)
            ∙ require_mapping-sort payload texts)
          (ap checksum_of (checksum_found lib state_format payload texts json)
            ∙ (checksum_of_lem lib state_format payload texts json))
          (unfold sort_keys in canonical_again lib (Value.dict payload) json)
          (unfold checksum in eq_refl (checksum lib state_format payload texts json))

  deserialize_lem :
      (p : Platform) (bytes : Library.Bytes lib) (fs payload : Fields) (s : PersistentState)
      → lib.is_empty bytes ≡ false
      → envelope_of (lib.loads bytes) ≡ ok fs
      → open_envelope lib fs ≡ ok payload
      → from_payload lib p payload ≡ ok s
      → deserialize_state lib p bytes ≡ ok s
  unfolding deserialize_state
  deserialize_lem p bytes fs payload s h1 h2 h3 h4 = rw (h1, h2, h3, h4) refl

-- A valid state is written, and what is written reads back as the state, with the keys of its JSON
-- fields in order.
pub deserialize_state-serialize_state :
    (lib : Library) (p : Platform) (s : PersistentState)
    → IsValid p s
    → (bytes : Library.Bytes lib) × (serialize_state lib p s ≡ ok bytes)
      × (deserialize_state lib p bytes ≡ ok (canonical_state s))
unfolding serialize_state
deserialize_state-serialize_state lib p s v =
    let f = parts p s v in
    let payload = to_payload lib s in
    let texts = (payload_keys lib s).0 in
    let json = to_payload-IsJson lib s texts f.overlay f.shadow f.traps in
    let document = Value.dict (sealed lib state_format payload texts json) in
    let document_json = sealed_json lib state_format payload texts json in
    (
      lib.dumps (sort_keys document),
      rw v (written lib state_format payload texts json),
      deserialize_lem lib p (lib.dumps (sort_keys document))
          (sort_fields (sealed lib state_format payload texts json)) (sort_fields payload)
          (canonical_state s) (lib.dumps_not_empty (sort_keys document))
          (loaded lib (sort_keys document)
            (sort_fields (sealed lib state_format payload texts json)) (unfold sort_keys in refl)
            (validate_json_value-sort_keys document document_json))
          (opened lib payload texts json) (from_payload-to_payload lib p s v),
    )

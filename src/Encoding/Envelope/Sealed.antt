-- ===== src/Encoding/Envelope/Sealed.antt =====
-- The envelope that `_serialize_checked_envelope` writes, as it is read back.
use jak3_ap.Prelude.{value_error, ◌≡◌, refl, ap, ◌∙◌, String, true, some, ok}
use jak3_ap.Value.{Value, Fields, get, keys_are_text, has_just_keys, validate_json_value}
use jak3_ap.Encoding.Json.{Library, sort_keys, sort_fields}
use jak3_ap.Encoding.Json.Reading.{get-sort_fields}
use jak3_ap.Encoding.Json.Canonical.{canonical_bytes}
use jak3_ap.Encoding.Payload.IsJson.{dict_valid, field_valid, str_valid, end_valid}
use jak3_ap.Encoding.Envelope.{
  checksum_algorithm, envelope_keys, envelope, or_raise, checksum_of, envelope_of,
  serialize_checked_envelope,
}

module _ (lib : Library) (format : String) (payload : Fields) (texts : keys_are_text payload ≡ true)
    (json : validate_json_value (Value.dict payload) ≡ ok tt) where
  unfoldable pub checksum : String
  checksum = lib.sha256 (lib.dumps (sort_keys (Value.dict payload)))

  unfoldable pub sealed : Fields
  unfolding envelope checksum
  sealed = envelope format checksum payload

  pub sealed_keys : (keys_are_text sealed ≡ true) × (has_just_keys envelope_keys sealed ≡ true)
  unfolding sealed envelope keys_are_text has_just_keys
  sealed_keys = (refl, refl)

  pub sealed_json : validate_json_value (Value.dict sealed) ≡ ok tt
  unfolding sealed envelope
  sealed_json = dict_valid sealed sealed_keys.0 (
      field_valid _ _ _ (str_valid format) (
        field_valid _ _ _ (str_valid checksum_algorithm)
          (field_valid _ _ _ (str_valid checksum) (field_valid _ _ _ json end_valid))))

  pub checksum_of_lem : checksum_of (Value.str checksum) ≡ ok checksum
  unfolding checksum_of checksum
  checksum_of_lem = rw (lib.sha256_length (lib.dumps (sort_keys (Value.dict payload)))) refl

  found : (key : String) → get key (sort_fields sealed) ≡ sort_keys (get key sealed)
  found key = get-sort_fields key sealed sealed_keys.0

  pub format_found : get "format" (sort_fields sealed) ≡ Value.str format
  format_found = found "format" ∙ (unfold sealed get sort_keys in refl)

  pub algorithm_found : get "checksum_algorithm" (sort_fields sealed) ≡ Value.str checksum_algorithm
  algorithm_found = found "checksum_algorithm" ∙ (unfold sealed get sort_keys in refl)

  pub checksum_found : get "payload_sha256" (sort_fields sealed) ≡ Value.str checksum
  checksum_found = found "payload_sha256" ∙ (unfold sealed get sort_keys in refl)

  pub payload_found : get "payload" (sort_fields sealed) ≡ sort_keys (Value.dict payload)
  payload_found = found "payload" ∙ (unfold sealed get in refl)

  pub written :
      serialize_checked_envelope lib format payload ≡ ok (lib.dumps (sort_keys (Value.dict sealed)))
  unfolding serialize_checked_envelope or_raise
  written = rw (canonical_bytes lib (Value.dict payload) json) (
      unfold sealed checksum in
      ap (or_raise value_error) (canonical_bytes lib (Value.dict sealed) sealed_json))

pub loaded :
    (lib : Library) (v : Value) (fs : Fields)
    → v ≡ Value.dict fs
    → validate_json_value v ≡ ok tt
    → envelope_of (lib.loads (lib.dumps v)) ≡ ok fs
unfolding envelope_of
loaded lib v fs e h = ap envelope_of (lib.loads_dumps v h) ∙ ap (λ w. envelope_of (some w)) e

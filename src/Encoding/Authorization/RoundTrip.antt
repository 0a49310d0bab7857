-- ===== src/Encoding/Authorization/RoundTrip.antt =====
-- An authorization that is written is read back.
use mathlib.Core.Path.{fun_ext}
use text.Mathlib.TextPositions.{eq_refl}
use text.Mathlib.Text.{◌==◌ as str_eq}
use jak3_ap.Prelude.{==_iff, ◌≡◌, refl, ap, ◌∙◌, pos, String, true, none, some, ok}
use jak3_ap.Value.{Value, Fields, get, keys_are_text, has_just_keys, validate_json_value}
use jak3_ap.Persistence.State.{AuthenticatedSlot}
use jak3_ap.Persistence.Identity.{Platform, validate_uuid, validate_identity_text}
use jak3_ap.Encoding.Json.{Library, canonical_json_bytes, sort_keys, sort_fields}
use jak3_ap.Encoding.Json.Canonical.{canonical_again}
use jak3_ap.Encoding.Json.Reading.{get-sort_fields, has_just_keys-sort_fields}
use jak3_ap.Encoding.Json.Valid.{validate_json_value-sort_keys}
use jak3_ap.Encoding.Payload.Read.{read_text, read_nat, read_int, require_mapping}
use jak3_ap.Encoding.Payload.IsJson.{dict_valid, field_valid, str_valid, int_valid, end_valid}
use jak3_ap.Encoding.Payload.Parts.{require_mapping-sort}
use jak3_ap.Encoding.Envelope.{
  checksum_algorithm, envelope_keys, or_raise, same_text, checksum_of, serialize_checked_envelope,
}
use jak3_ap.Encoding.Envelope.Sealed.{
  checksum, sealed, sealed_keys, sealed_json, checksum_of_lem, format_found, algorithm_found,
  checksum_found, payload_found, written, loaded,
}
use jak3_ap.Encoding.Authorization.{
  save_identity_authorization_format, save_identity_authorization_keys, authorization_payload,
  SaveIdentityAuthorization, read_authorization, open_authorization,
  load_save_identity_authorization, validate_save_identity_authorization,
  require_save_identity_authorization, write_authorization, authorize_over, authorize_save_identity,
}

open_lem :
    (lib : Library) (fs payload : Fields) (checksum : String) (bytes : Library.Bytes lib)
    → has_just_keys envelope_keys fs ≡ true
    → same_text save_identity_authorization_format (get "format" fs) ≡ true
    → same_text checksum_algorithm (get "checksum_algorithm" fs) ≡ true
    → require_mapping (get "payload" fs) ≡ ok payload
    → has_just_keys save_identity_authorization_keys payload ≡ true
    → checksum_of (get "payload_sha256" fs) ≡ ok checksum
    → canonical_json_bytes lib (Value.dict payload) ≡ some bytes
    → str_eq checksum (lib.sha256 bytes) ≡ true
    → open_authorization lib fs ≡ ok payload
unfolding open_authorization or_raise
open_lem lib fs payload checksum bytes h1 h2 h3 h4 h5 h6 h7 h8 =
    rw (h1, h2, h3, h4, h5, h6, h7, h8) refl

module _ (lib : Library) (p : Platform) (id : String) (a : AuthenticatedSlot) where
  payload_keys :
      (keys_are_text (authorization_payload id a) ≡ true)
      × (has_just_keys save_identity_authorization_keys (authorization_payload id a) ≡ true)
  unfolding authorization_payload keys_are_text has_just_keys
  payload_keys = (refl, refl)

  payload_json : validate_json_value (Value.dict (authorization_payload id a)) ≡ ok tt
  unfolding authorization_payload
  payload_json = dict_valid (authorization_payload id a) payload_keys.0 (
      field_valid _ _ _ (int_valid (pos 1)) (
        field_valid _ _ _ (str_valid id) (
          field_valid _ _ _ (str_valid a.seed_identifier) (
            field_valid _ _ _ (int_valid (pos a.team)) (
              field_valid _ _ _ (int_valid (pos a.slot))
                (field_valid _ _ _ (str_valid a.slot_name) end_valid))))))

  abbrev document : Fields
  document =
      sealed lib save_identity_authorization_format (authorization_payload id a) payload_keys.0
        payload_json

  abbrev authorization : SaveIdentityAuthorization
  authorization = record {
    native_save_identity = id;
    seed_identifier = a.seed_identifier;
    team = a.team;
    slot = a.slot;
    slot_name = a.slot_name;
  }

  same_text_lem : (text : String) (v : Value) → v ≡ Value.str text → same_text text v ≡ true
  unfolding same_text
  same_text_lem text v h = rw h (eq_refl text)

  opened :
      open_authorization lib (sort_fields document) ≡ ok (sort_fields (authorization_payload id a))
  opened =
      let payload = authorization_payload id a in
      open_lem lib (sort_fields document) (sort_fields payload)
        (checksum lib save_identity_authorization_format (authorization_payload id a) payload_keys.0
          payload_json)
        (lib.dumps (sort_keys (Value.dict payload)))
        (has_just_keys-sort_fields envelope_keys document
          ∙ (sealed_keys lib save_identity_authorization_format (authorization_payload id a)
              payload_keys.0 payload_json).1)
        (same_text_lem save_identity_authorization_format (get "format" (sort_fields document)) (
          format_found lib save_identity_authorization_format (authorization_payload id a)
            payload_keys.0 payload_json))
        (same_text_lem checksum_algorithm (get "checksum_algorithm" (sort_fields document)) (
          algorithm_found lib save_identity_authorization_format (authorization_payload id a)
            payload_keys.0 payload_json))
        (ap require_mapping (
            payload_found lib save_identity_authorization_format (authorization_payload id a)
              payload_keys.0 payload_json)
          ∙ require_mapping-sort payload payload_keys.0)
        (has_just_keys-sort_fields save_identity_authorization_keys payload ∙ payload_keys.1)
        (ap checksum_of (
            checksum_found lib save_identity_authorization_format (authorization_payload id a)
              payload_keys.0 payload_json)
          ∙ checksum_of_lem lib save_identity_authorization_format (authorization_payload id a)
              payload_keys.0 payload_json)
        (unfold sort_keys in canonical_again lib (Value.dict payload) payload_json)
        (unfold checksum in
          eq_refl (
            checksum lib save_identity_authorization_format (authorization_payload id a)
              payload_keys.0 payload_json))

  reads :
      validate_uuid p id ≡ ok tt
      → validate_identity_text 256 a.seed_identifier ≡ ok tt
      → validate_identity_text 128 a.slot_name ≡ ok tt
      → read_authorization p (λ key. get key (sort_fields (authorization_payload id a)))
        ≡ ok authorization
  reads uuid seed name =
      ap (read_authorization p)
        (fun_ext (λ key. get-sort_fields key (authorization_payload id a) payload_keys.0))
      ∙ unfold read_authorization authorization_payload get sort_keys read_text read_nat read_int in
        rw (uuid, seed, name) refl

  abbrev file : Library.Bytes lib
  file = lib.dumps (sort_keys (Value.dict document))

  loads :
      validate_uuid p id ≡ ok tt
      → validate_identity_text 256 a.seed_identifier ≡ ok tt
      → validate_identity_text 128 a.slot_name ≡ ok tt
      → load_save_identity_authorization lib p (some file) ≡ ok authorization
  unfolding load_save_identity_authorization
  loads uuid seed name =
      rw
        (
          lib.dumps_not_empty (sort_keys (Value.dict document)),
          loaded lib (sort_keys (Value.dict document)) (sort_fields document)
              (unfold sort_keys in refl)
              (validate_json_value-sort_keys (Value.dict document) (
                sealed_json lib save_identity_authorization_format (authorization_payload id a)
                  payload_keys.0 payload_json)),
          opened,
        )
        (reads uuid seed name)

  names : validate_save_identity_authorization authorization id a ≡ ok tt
  unfolding validate_save_identity_authorization
  names =
      rw
        (
          eq_refl id,
          eq_refl a.seed_identifier,
          (==_iff a.team a.team).1 refl,
          (==_iff a.slot a.slot).1 refl,
          eq_refl a.slot_name,
        )
        refl

-- For a canonical UUID and a slot whose texts are within their limits, authorizing a save identity
-- that has no file writes one. The file then passes the check for the identity and the slot, and
-- authorizing them again returns and leaves it as it is.
pub require_save_identity_authorization-authorize :
    (lib : Library) (p : Platform) (id : String) (a : AuthenticatedSlot)
    → validate_uuid p id ≡ ok tt
    → validate_identity_text 256 a.seed_identifier ≡ ok tt
    → validate_identity_text 128 a.slot_name ≡ ok tt
    → (bytes : Library.Bytes lib) × (authorize_save_identity lib p id a none ≡ (ok tt, some bytes))
      × (require_save_identity_authorization lib p (some bytes) id a ≡ ok tt)
      × (authorize_save_identity lib p id a (some bytes) ≡ (ok tt, some bytes))
unfolding require_save_identity_authorization authorize_save_identity authorize_over
    write_authorization
require_save_identity_authorization-authorize lib p id a uuid seed name = (
  file lib p id a,
  rw (uuid, written_lem) refl,
  rw (uuid, loads lib p id a uuid seed name) (names lib p id a),
  rw (uuid, written_lem, loads lib p id a uuid seed name, names lib p id a) refl,
)
  where
    written_lem :
        serialize_checked_envelope lib save_identity_authorization_format
          (authorization_payload id a)
        ≡ ok (file lib p id a)
    written_lem =
        written lib save_identity_authorization_format (authorization_payload id a)
          (payload_keys lib p id a).0 (payload_json lib p id a)

-- ===== src/Encoding/Envelope/Accepted.antt =====
-- What a file must hold to be read as a state.
use text.Mathlib.TextEquality.{eq_iff}
use text.Mathlib.Text.{◌==◌ as str_eq}
use jak3_ap.Prelude.{
  require-ok, ◌≡◌, sym, ap, ◌∙◌, String, true, not, Option, some, Error, ok, >>-eq-ok, >>=-eq-ok,
  ok-injective, require, corruption, compatibility, arith,
}
use jak3_ap.Value.{Value, Fields, get, has_just_keys}
use jak3_ap.Persistence.State.{PersistentState}
use jak3_ap.Persistence.Identity.{Platform}
use jak3_ap.Persistence.Validate.{post_init}
use jak3_ap.Outbox.Transition.{IsValid}
use jak3_ap.Encoding.Json.{Library, canonical_json_bytes}
use jak3_ap.Encoding.Payload.Read.{require_mapping}
use jak3_ap.Encoding.Payload.State.{check_payload, read_payload, construct, from_payload}
use jak3_ap.Encoding.Envelope.{
  state_format, checksum_algorithm, envelope_keys, or_raise, has_text, checksum_of, open_envelope,
  envelope_of, deserialize_state,
}

constructed : (p : Platform) (raw s : PersistentState) → construct p raw ≡ ok s → IsValid p s
unfolding construct post_init
constructed p raw s h = ground arith

from_payload-IsValid :
    (lib : Library) (p : Platform) (payload : Fields) (s : PersistentState)
    → from_payload lib p payload ≡ ok s
    → IsValid p s
unfolding from_payload
from_payload-IsValid lib p payload s h =
    let (_, rest) = >>-eq-ok (check_payload payload) _ h in
    let (raw, _, built) =
      >>=-eq-ok (read_payload lib (λ key. get key payload)) (construct p) rest in
    constructed p raw s built

mapping_lem : (v : Value) (fs : Fields) → require_mapping v ≡ ok fs → v ≡ Value.dict fs
unfolding require_mapping
mapping_lem v fs h = ground arith

raised_lem {ℓ} : {A : Type ℓ} (e : Error) (o : Option A) (a : A) → or_raise e o ≡ ok a → o ≡ some a
unfolding or_raise
raised_lem e o a h = ground arith

checksum_lem : (v : Value) (s : String) → checksum_of v ≡ ok s → v ≡ Value.str s
unfolding checksum_of
checksum_lem v s h = ground arith

envelope_lem : (o : Option Value) (fs : Fields) → envelope_of o ≡ ok fs → o ≡ some (Value.dict fs)
unfolding envelope_of
envelope_lem o fs h = ground arith

-- A document that seals its payload: it has the four keys and the state format, and its checksum is
-- the digest of the payload's canonical bytes.
pub record Seals (lib : Library) (document payload : Fields) : Type 0 where
  pub keys : has_just_keys envelope_keys document ≡ true
  pub format : has_text "format" state_format document ≡ true
  pub algorithm : has_text "checksum_algorithm" checksum_algorithm document ≡ true
  pub holds : get "payload" document ≡ Value.dict payload
  pub canonical : Library.Bytes lib
  pub encoded : canonical_json_bytes lib (Value.dict payload) ≡ some canonical
  pub checksum : get "payload_sha256" document ≡ Value.str (lib.sha256 canonical)

open_envelope-Seals :
    (lib : Library) (document payload : Fields)
    → open_envelope lib document ≡ ok payload
    → Seals lib document payload
unfolding open_envelope
open_envelope-Seals lib document payload h =
    let (format, r1) =
      >>-eq-ok (require (has_text "format" state_format document) compatibility) _ h in
    let (algorithm, r2) =
      >>-eq-ok (require (has_text "checksum_algorithm" checksum_algorithm document) compatibility) _
        r1 in
    let (keys, r3) = >>-eq-ok (require (has_just_keys envelope_keys document) corruption) _ r2 in
    let (fields, holds, r4) = >>=-eq-ok (require_mapping (get "payload" document)) _ r3 in
    let (sum, summed, r5) = >>=-eq-ok (checksum_of (get "payload_sha256" document)) _ r4 in
    let (canonical, encoded, r6) =
      >>=-eq-ok (or_raise corruption (canonical_json_bytes lib (Value.dict fields))) _ r5 in
    let (agree, r7) = >>-eq-ok (require (str_eq sum (lib.sha256 canonical)) corruption) _ r6 in
    let held = mapping_lem (get "payload" document) fields holds in
    let same = ok-injective r7 in
    let digest = (eq_iff sum (lib.sha256 canonical)).0 (require-ok _ corruption agree) in
    let sealed = checksum_lem (get "payload_sha256" document) sum summed in
    record {
      keys = require-ok _ corruption keys;
      format = require-ok _ compatibility format;
      algorithm = require-ok _ compatibility algorithm;
      holds = held ∙ ap Value.dict same;
      canonical = canonical;
      encoded =
          ap (λ fs. canonical_json_bytes lib (Value.dict fs)) (sym same)
          ∙ raised_lem corruption (canonical_json_bytes lib (Value.dict fields)) canonical encoded;
      checksum = sealed ∙ ap Value.str digest;
    }

-- A file that is read as a state holds one document with the four keys of an envelope, in the state
-- format, whose checksum is the digest of its payload; the state is what the payload says, and it
-- is valid.
pub deserialize_state-Seals :
    (lib : Library) (p : Platform) (bytes : Library.Bytes lib) (s : PersistentState)
    → deserialize_state lib p bytes ≡ ok s
    → (document payload : Fields) × (lib.loads bytes ≡ some (Value.dict document))
      × Seals lib document payload
      × (from_payload lib p payload ≡ ok s)
      × IsValid p s
unfolding deserialize_state
deserialize_state-Seals lib p bytes s h =
    let (_, r1) = >>-eq-ok (require (not (lib.is_empty bytes)) corruption) _ h in
    let (document, loads, r2) = >>=-eq-ok (envelope_of (lib.loads bytes)) _ r1 in
    let (payload, opens, built) = >>=-eq-ok (open_envelope lib document) (from_payload lib p) r2 in
    (
      document,
      payload,
      envelope_lem (lib.loads bytes) document loads,
      open_envelope-Seals lib document payload opens,
      built,
      from_payload-IsValid lib p payload s built,
    )

pub deserialize_state-IsValid :
    (lib : Library) (p : Platform) (bytes : Library.Bytes lib) (s : PersistentState)
    → deserialize_state lib p bytes ≡ ok s
    → IsValid p s
deserialize_state-IsValid lib p bytes s h = (deserialize_state-Seals lib p bytes s h).5

-- ===== src/Encoding/Payload/RoundTrip.antt =====
-- A payload reads back as the state that it was written from.
use mathlib.Core.Path.{fun_ext}
use jak3_ap.Prelude.{
  Bool, false, corruption, require, subst, sym, ◌≡◌, refl, ap, ◌∙◌, true, Option, none, some, ok,
  pos, Result, ◌>>=◌, map, arith,
}
use jak3_ap.Value.{Value, get, keys_are_text, has_just_keys}
use jak3_ap.Persistence.State.{NativeSaveDescriptor, AuthenticatedSlot, PersistentState}
use jak3_ap.Persistence.Identity.{
  is_bound, validate_binding, validate_native_save, Platform, compare_contract, expected_contract,
}
use jak3_ap.Persistence.Validate.{
  validate_state, validate_header, validate_application, validate_footer,
  validate_optional_json_mapping, validate_traps, post_init,
}
use jak3_ap.Outbox.Transition.{IsValid}
use jak3_ap.ReceivedItems.Journal.{valid-IsConsistent}
use jak3_ap.Encoding.Json.Reading.{get-sort_fields, has_just_keys-sort_fields}
use jak3_ap.Encoding.Json.Valid.{validate_json_mapping-sort_keys, validate_traps-sort_keys}
use jak3_ap.Encoding.Json.{Library, sort_keys, sort_fields}
use jak3_ap.Encoding.Payload.Write.{to_payload, persistent_state_keys}
use jak3_ap.Encoding.Payload.Read.{read_text, read_nat, read_bool, read_int}
use jak3_ap.Encoding.Payload.State.{check_payload, construct, read_payload, from_payload}
use jak3_ap.Encoding.Payload.Counts.{IsAscending, item_counts-IsAscending, counts_back}
use jak3_ap.Encoding.Payload.Parts.{
  sorted_reads, sorted_reading, sorted_optional, optional_text_back, optional_nat_back, nats_back,
  optional_mapping_back, traps_back, journal_back, receipt_back,
}

-- The state with the keys of its JSON fields in order. Python's equality does not see the order of
-- a dict's keys.
unfoldable pub canonical_state : PersistentState → PersistentState
unfolding sorted_optional
canonical_state s = record s {
  active_bootstrap_overlay = sorted_optional s.active_bootstrap_overlay;
  active_shadow_story_state = sorted_optional s.active_shadow_story_state;
  pending_traps = map sort_keys s.pending_traps;
}

pub payload_keys :
    (lib : Library) (s : PersistentState)
    → (keys_are_text (to_payload lib s) ≡ true)
      × (has_just_keys persistent_state_keys (to_payload lib s) ≡ true)
unfolding to_payload keys_are_text has_just_keys
payload_keys lib s = (refl, refl)

payload_back :
    (lib : Library) (s : PersistentState)
    → IsAscending s.received_item_counts
    → validate_optional_json_mapping s.active_bootstrap_overlay ≡ ok tt
    → validate_optional_json_mapping s.active_shadow_story_state ≡ ok tt
    → validate_traps s.pending_traps ≡ ok tt
    → read_payload lib (sorted_reading (to_payload lib s)) ≡ ok (canonical_state s)
unfolding read_payload to_payload get sort_keys read_text read_nat read_bool canonical_state
payload_back lib s ascending overlay shadow traps =
    rw
      (
        optional_text_back s.seed_identifier,
        optional_nat_back s.team,
        optional_nat_back s.slot,
        optional_text_back s.slot_name,
        journal_back s.received_item_journal,
        counts_back lib s.received_item_counts ascending,
        nats_back s.pending_item_application_indices,
        receipt_back s.last_observed_game_command_receipt,
        nats_back s.checked_location_bits,
        nats_back s.server_confirmed_location_bits,
        nats_back s.pending_location_outbox,
        optional_mapping_back s.active_bootstrap_overlay overlay,
        optional_mapping_back s.active_shadow_story_state shadow,
        traps_back s.pending_traps traps,
      )
      refl

pub optional-sorted :
    (o : Option Value)
    → validate_optional_json_mapping o ≡ ok tt
    → validate_optional_json_mapping (sorted_optional o) ≡ ok tt
unfolding validate_optional_json_mapping sorted_optional
optional-sorted none h = refl
optional-sorted (some v) h = validate_json_mapping-sort_keys v h

-- the parts of a valid state that the payload reads
pub record Parts (p : Platform) (s : PersistentState) : Type 0 where
  pub ascending : IsAscending s.received_item_counts
  pub schema : s.state_schema_version ≡ 1
  pub overlay : validate_optional_json_mapping s.active_bootstrap_overlay ≡ ok tt
  pub shadow : validate_optional_json_mapping s.active_shadow_story_state ≡ ok tt
  pub traps : validate_traps s.pending_traps ≡ ok tt

footer_lem :
    (s : PersistentState)
    → validate_footer s ≡ ok tt
    → (validate_optional_json_mapping s.active_bootstrap_overlay ≡ ok tt)
      × (validate_optional_json_mapping s.active_shadow_story_state ≡ ok tt)
      × (validate_traps s.pending_traps ≡ ok tt)
unfolding validate_footer
footer_lem s h = (ground arith, ground arith, ground arith)

header_lem :
    (p : Platform) (s : PersistentState)
    → validate_header p s none none ≡ ok tt
    → s.state_schema_version ≡ 1
unfolding validate_header compare_contract expected_contract
header_lem p s h = ground arith

state_checks :
    (p : Platform) (s : PersistentState)
    → IsValid p s
    → (validate_header p s none none ≡ ok tt) × (validate_footer s ≡ ok tt)
unfolding validate_state
state_checks p s v = (ground arith, ground arith)

pub parts : (p : Platform) (s : PersistentState) → IsValid p s → Parts p s
parts p s v =
    let (header, footer) = state_checks p s v in
    let (overlay, shadow, traps) = footer_lem s footer in
    record {
      ascending =
          subst IsAscending (sym (valid-IsConsistent p s v).counts_are)
            (item_counts-IsAscending s.received_item_journal);
      schema = header_lem p s header;
      overlay = overlay;
      shadow = shadow;
      traps = traps;
    }

native_save_canonical :
    (s : PersistentState) (native_save : Option NativeSaveDescriptor)
    → validate_native_save (canonical_state s) native_save ≡ validate_native_save s native_save
unfolding validate_native_save canonical_state
native_save_canonical s none = refl
native_save_canonical s (some n) = refl

binding_canonical :
    (s : PersistentState) (authenticated : Option AuthenticatedSlot) (bound : Bool)
    → validate_binding (canonical_state s) authenticated bound
      ≡ validate_binding s authenticated bound
unfolding validate_binding canonical_state
binding_canonical s none true = refl
binding_canonical s none false = refl
binding_canonical s (some a) true = refl
binding_canonical s (some a) false = refl

-- the last check of the header
bound_canonical :
    (s : PersistentState) (authenticated : Option AuthenticatedSlot)
    → (is_bound (canonical_state s) >>= validate_binding (canonical_state s) authenticated)
      ≡ (is_bound s >>= validate_binding s authenticated)
bound_canonical s authenticated =
    ap (λ (g : Bool → Result (Unit {0})). is_bound (canonical_state s) >>= g)
      (fun_ext (binding_canonical s authenticated))
    ∙ unfold is_bound canonical_state in refl

header_canonical :
    (p : Platform) (s : PersistentState) (native_save : Option NativeSaveDescriptor)
    (authenticated : Option AuthenticatedSlot)
    → validate_header p (canonical_state s) native_save authenticated
      ≡ validate_header p s native_save authenticated
unfolding validate_header
header_canonical p s native_save authenticated =
    rw (native_save_canonical s native_save, bound_canonical s authenticated)
      (unfold canonical_state in refl)

footer_canonical :
    (s : PersistentState) → validate_footer s ≡ ok tt → validate_footer (canonical_state s) ≡ ok tt
unfolding validate_footer canonical_state
footer_canonical s h =
    let (overlay, shadow, traps) = footer_lem s h in
    rw
      (
        optional-sorted s.active_bootstrap_overlay overlay,
        optional-sorted s.active_shadow_story_state shadow,
        validate_traps-sort_keys s.pending_traps traps,
      )
      (ground arith)

-- Putting the keys of the JSON fields in order changes no validation that passes.
pub canonical_state_fits :
    (p : Platform) (s : PersistentState) (native_save : Option NativeSaveDescriptor)
    (authenticated : Option AuthenticatedSlot)
    → validate_state p s native_save authenticated ≡ ok tt
    → validate_state p (canonical_state s) native_save authenticated ≡ ok tt
unfolding validate_state canonical_state validate_application
canonical_state_fits p s native_save authenticated v =
    ground (arith, header_canonical p s native_save authenticated, footer_canonical s)

pub canonical_state-IsValid :
    (p : Platform) (s : PersistentState) → IsValid p s → IsValid p (canonical_state s)
canonical_state-IsValid p s v = canonical_state_fits p s none none v

schema_read :
    (lib : Library) (s : PersistentState)
    → s.state_schema_version ≡ 1
    → get "state_schema_version" (sort_fields (to_payload lib s)) ≡ Value.int (pos 1)
schema_read lib s schema =
    get-sort_fields "state_schema_version" (to_payload lib s) (payload_keys lib s).0
    ∙ (unfold to_payload get sort_keys in ap (λ n. Value.int (pos n)) schema)

checked :
    (lib : Library) (s : PersistentState)
    → s.state_schema_version ≡ 1
    → check_payload (sort_fields (to_payload lib s)) ≡ ok tt
unfolding check_payload read_int
checked lib s schema = rw (schema_read lib s schema) (
    ap (λ b. require b corruption)
      (has_just_keys-sort_fields persistent_state_keys (to_payload lib s) ∙ (payload_keys lib s).1))

constructed : (p : Platform) (s : PersistentState) → IsValid p s → construct p s ≡ ok s
unfolding construct post_init
constructed p s v = rw v (rw v refl)

-- The payload of a valid state, with the keys of its mappings sorted at every depth, reads back as
-- the state, with the keys of its JSON fields in order.
pub from_payload-to_payload :
    (lib : Library) (p : Platform) (s : PersistentState)
    → IsValid p s
    → from_payload lib p (sort_fields (to_payload lib s)) ≡ ok (canonical_state s)
unfolding from_payload
from_payload-to_payload lib p s v =
    let f = parts p s v in
    let read =
      ap (read_payload lib) (sorted_reads (to_payload lib s) (payload_keys lib s).0)
      ∙ payload_back lib s f.ascending f.overlay f.shadow f.traps in
    rw (checked lib s f.schema) (
      ap (λ (r : Result PersistentState). r >>= construct p) read
      ∙ constructed p (canonical_state s) (canonical_state-IsValid p s v))

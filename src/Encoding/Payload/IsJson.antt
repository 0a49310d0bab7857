-- ===== src/Encoding/Payload/IsJson.antt =====
-- The payload of a state with JSON fields is a JSON value.
use jak3_ap.Prelude.{
  ℤ, pos, String, Bool, ℕ, ◌≡◌, refl, true, Option, none, some, List, [], ◌∷◌, ok, >>-eq-ok,
}
use jak3_ap.Value.{
  Value, Items, Fields, keys_are_text, validate_json_value, validate_json_items,
  validate_json_fields, validate_json_mapping,
}
use jak3_ap.Persistence.State.{ReceivedItemJournalEntry, GameCommandReceipt, PersistentState}
use jak3_ap.Persistence.Validate.{validate_optional_json_mapping, validate_traps}
use jak3_ap.Encoding.Json.{Library}
use jak3_ap.Encoding.Payload.Write.{
  optional_text_value, optional_nat_value, optional_value, nat_items, value_items, entry_fields,
  journal_items, receipt_fields, receipt_value, count_fields, to_payload,
}
use jak3_ap.Encoding.Payload.Counts.{count_keys}

mapping_valid : (v : Value) → validate_json_mapping v ≡ ok tt → validate_json_value v ≡ ok tt
unfolding validate_json_mapping
mapping_valid (Value.dict fs) h = h
mapping_valid v h = cc

optional_valid :
    (o : Option Value)
    → validate_optional_json_mapping o ≡ ok tt
    → validate_json_value (optional_value o) ≡ ok tt
unfolding validate_optional_json_mapping optional_value
optional_valid none h = unfold validate_json_value in refl
optional_valid (some v) h = mapping_valid v h

traps_valid :
    (vs : List Value) → validate_traps vs ≡ ok tt → validate_json_items (value_items vs) ≡ ok tt
unfolding validate_traps value_items validate_json_value
traps_valid [] h = refl
traps_valid (v ∷ vs) h =
    let (a, b) = >>-eq-ok (validate_json_mapping v) (validate_traps vs) h in
    rw (mapping_valid v a) (traps_valid vs b)

text_valid : (o : Option String) → validate_json_value (optional_text_value o) ≡ ok tt
unfolding validate_json_value optional_text_value
text_valid none = refl
text_valid (some s) = refl

nat_valid : (o : Option ℕ) → validate_json_value (optional_nat_value o) ≡ ok tt
unfolding validate_json_value optional_nat_value
nat_valid none = refl
nat_valid (some n) = refl

nats_valid : (ns : List ℕ) → validate_json_items (nat_items ns) ≡ ok tt
unfolding validate_json_value nat_items
nats_valid [] = refl
nats_valid (n ∷ ns) = nats_valid ns

journal_valid :
    (journal : List ReceivedItemJournalEntry) → validate_json_items (journal_items journal) ≡ ok tt
unfolding validate_json_value journal_items entry_fields keys_are_text
journal_valid [] = refl
journal_valid (e ∷ journal) = journal_valid journal

receipt_valid : (o : Option GameCommandReceipt) → validate_json_value (receipt_value o) ≡ ok tt
unfolding validate_json_value receipt_value receipt_fields keys_are_text
receipt_valid none = refl
receipt_valid (some r) = refl

counts_valid :
    (lib : Library) (counts : List (ℕ × ℕ)) → validate_json_fields (count_fields lib counts) ≡ ok tt
unfolding validate_json_value count_fields
counts_valid lib [] = refl
counts_valid lib ((i, c) ∷ counts) = counts_valid lib counts

pub str_valid : (s : String) → validate_json_value (Value.str s) ≡ ok tt
unfolding validate_json_value
str_valid s = refl

pub int_valid : (n : ℤ) → validate_json_value (Value.int n) ≡ ok tt
unfolding validate_json_value
int_valid n = refl

bool_valid : (b : Bool) → validate_json_value (Value.bool b) ≡ ok tt
unfolding validate_json_value
bool_valid b = refl

list_valid :
    (xs : Items) → validate_json_items xs ≡ ok tt → validate_json_value (Value.list xs) ≡ ok tt
unfolding validate_json_value
list_valid xs h = h

pub dict_valid :
    (fs : Fields)
    → keys_are_text fs ≡ true
    → validate_json_fields fs ≡ ok tt
    → validate_json_value (Value.dict fs) ≡ ok tt
unfolding validate_json_value
dict_valid fs k h = rw (k, h) refl

pub end_valid : validate_json_fields Fields.end ≡ ok tt
unfolding validate_json_value
end_valid = refl

pub field_valid :
    (k v : Value) (fs : Fields)
    → validate_json_value v ≡ ok tt
    → validate_json_fields fs ≡ ok tt
    → validate_json_fields (Fields.field k v fs) ≡ ok tt
unfolding validate_json_value
field_valid k v fs h g = rw (h, g) refl

fields_valid :
    (lib : Library) (s : PersistentState)
    → validate_optional_json_mapping s.active_bootstrap_overlay ≡ ok tt
    → validate_optional_json_mapping s.active_shadow_story_state ≡ ok tt
    → validate_traps s.pending_traps ≡ ok tt
    → validate_json_fields (to_payload lib s) ≡ ok tt
unfolding to_payload
fields_valid lib s overlay shadow traps = field_valid _ _ _ (str_valid s.state_instance_id) (
    field_valid _ _ _ (int_valid (pos s.state_revision)) (
      field_valid _ _ _ (int_valid (pos s.state_schema_version)) (
        field_valid _ _ _ (int_valid (pos s.protocol_version)) (
          field_valid _ _ _ (int_valid (pos s.game_integration_version)) (
            field_valid _ _ _ (int_valid (pos s.slot_data_version)) (
              field_valid _ _ _ (str_valid s.item_table_hash) (
                field_valid _ _ _ (str_valid s.location_table_hash) (
                  field_valid _ _ _ (str_valid s.mission_table_hash) (
                    field_valid _ _ _ (str_valid s.resolved_options_hash) (
                      field_valid _ _ _ (str_valid s.design_version) (
                        field_valid _ _ _ (text_valid s.seed_identifier) (
                          field_valid _ _ _ (nat_valid s.team) (
                            field_valid _ _ _ (nat_valid s.slot) (
                              field_valid _ _ _ (text_valid s.slot_name) (
                                field_valid _ _ _ (int_valid (pos s.native_save_slot)) (
                                  field_valid _ _ _ (str_valid s.native_save_identity) (
                                    field_valid _ _ _ (int_valid (pos s.next_received_item_index)) (
                                      field_valid _ _ _
                                        (list_valid (journal_items s.received_item_journal)
                                          (journal_valid s.received_item_journal))
                                        (field_valid _ _ _
                                          (dict_valid (count_fields lib s.received_item_counts)
                                            (count_keys lib s.received_item_counts)
                                            (counts_valid lib s.received_item_counts))
                                          (field_valid _ _ _
                                            (list_valid
                                              (nat_items s.pending_item_application_indices)
                                              (nats_valid s.pending_item_application_indices))
                                            (field_valid _ _ _
                                              (int_valid (pos s.game_application_journal_version))
                                              (field_valid _ _ _
                                                (receipt_valid s.last_observed_game_command_receipt)
                                                (field_valid _ _ _
                                                  (list_valid (nat_items s.checked_location_bits)
                                                    (nats_valid s.checked_location_bits))
                                                  (field_valid _ _ _
                                                    (list_valid
                                                      (nat_items s.server_confirmed_location_bits)
                                                      (nats_valid s.server_confirmed_location_bits))
                                                    (field_valid _ _ _
                                                      (list_valid
                                                        (nat_items s.pending_location_outbox)
                                                        (nats_valid s.pending_location_outbox))
                                                      (field_valid _ _ _
                                                        (int_valid
                                                          (pos s.local_earned_precursor_orbs))
                                                        (field_valid _ _ _
                                                          (int_valid
                                                            (pos s.local_earned_skull_gems))
                                                          (field_valid _ _ _
                                                            (optional_valid
                                                            s.active_bootstrap_overlay overlay)
                                                            (field_valid _ _ _
                                                            (optional_valid
                                                            s.active_shadow_story_state shadow)
                                                            (field_valid _ _ _
                                                            (list_valid
                                                            (value_items s.pending_traps)
                                                            (traps_valid s.pending_traps traps))
                                                            (field_valid _ _ _
                                                            (bool_valid s.goal_completed)
                                                            (field_valid _ _ _
                                                            (bool_valid s.goal_status_sent)
                                                            (field_valid _ _ _
                                                            (bool_valid s.last_clean_shutdown)
                                                            (end_valid))))))))))))))))))))))))))))))))))

-- A payload is JSON where the state's JSON fields are.
pub to_payload-IsJson :
    (lib : Library) (s : PersistentState)
    → keys_are_text (to_payload lib s) ≡ true
    → validate_optional_json_mapping s.active_bootstrap_overlay ≡ ok tt
    → validate_optional_json_mapping s.active_shadow_story_state ≡ ok tt
    → validate_traps s.pending_traps ≡ ok tt
    → validate_json_value (Value.dict (to_payload lib s)) ≡ ok tt
to_payload-IsJson lib s texts overlay shadow traps =
    dict_valid (to_payload lib s) texts (fields_valid lib s overlay shadow traps)

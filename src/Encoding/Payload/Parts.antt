-- ===== src/Encoding/Payload/Parts.antt =====
-- Each part of a payload reads back from its JSON, whose mappings are sorted.
use mathlib.Core.Path.{fun_ext}
use jak3_ap.Prelude.{
  Result, ℕ, ◌≡◌, refl, ap, ◌∙◌, String, true, Option, none, some, List, [], ◌∷◌, ok, ◌>>=◌,
  >>-eq-ok, arith, map,
}
use jak3_ap.Value.{
  Value, Fields, get, keys_are_text, has_just_keys, validate_json_value, validate_json_mapping,
}
use jak3_ap.Persistence.State.{ReceivedItemState, ReceivedItemJournalEntry, GameCommandReceipt}
use jak3_ap.Persistence.Validate.{validate_optional_json_mapping, validate_traps}
use jak3_ap.Encoding.Json.{sort_keys, sort_items, sort_fields}
use jak3_ap.Encoding.Json.Reading.{
  get-sort_fields, has_just_keys-sort_fields, keys_are_text-sort_fields,
}
use jak3_ap.Encoding.Payload.Write.{
  optional_text_value, optional_nat_value, optional_value, nat_items, value_items, entry_fields,
  journal_items, receipt_fields, receipt_value, state_text,
}
use jak3_ap.Encoding.Payload.Read.{
  read_text, read_nat, read_int, read_optional_text, read_optional_nat, require_mapping,
  read_optional_mapping, require_list, read_nat_items, read_nats, read_mappings, read_traps,
  read_item_state, entry_keys, entry_of, read_entry, read_entries, read_journal, receipt_keys,
  receipt_of, read_receipt_mapping, read_receipt,
}

abbrev pub reading : Fields → String → Value
reading fs key = get key fs

abbrev pub sorted_reading : Fields → String → Value
sorted_reading fs key = sort_keys (get key fs)

-- what reading a sorted mapping finds
pub sorted_reads :
    (fs : Fields) → keys_are_text fs ≡ true → reading (sort_fields fs) ≡ sorted_reading fs
sorted_reads fs h = fun_ext (λ key. get-sort_fields key fs h)

pub require_mapping-sort :
    (fs : Fields)
    → keys_are_text fs ≡ true
    → require_mapping (sort_keys (Value.dict fs)) ≡ ok (sort_fields fs)
unfolding require_mapping sort_keys
require_mapping-sort fs h = rw (keys_are_text-sort_fields fs, h) refl

pub optional_text_back :
    (o : Option String) → read_optional_text (sort_keys (optional_text_value o)) ≡ ok o
unfolding read_optional_text sort_keys optional_text_value
optional_text_back none = refl
optional_text_back (some s) = refl

pub optional_nat_back : (o : Option ℕ) → read_optional_nat (sort_keys (optional_nat_value o)) ≡ ok o
unfolding read_optional_nat sort_keys optional_nat_value
optional_nat_back none = refl
optional_nat_back (some n) = refl

nat_items_back : (ns : List ℕ) → read_nat_items (sort_items (nat_items ns)) ≡ ok ns
unfolding read_nat_items sort_keys nat_items read_nat
nat_items_back [] = refl
nat_items_back (n ∷ ns) = rw (nat_items_back ns) refl

pub nats_back : (ns : List ℕ) → read_nats (sort_keys (Value.list (nat_items ns))) ≡ ok ns
unfolding read_nats sort_keys require_list
nats_back ns = nat_items_back ns

mapping_back :
    (v : Value)
    → validate_json_mapping v ≡ ok tt
    → (fs : Fields) × (v ≡ Value.dict fs) × (keys_are_text fs ≡ true)
unfolding validate_json_mapping validate_json_value
mapping_back (Value.dict fs) h = (fs, refl, ground arith)
mapping_back v h = cc

unfoldable pub sorted_optional : Option Value → Option Value
sorted_optional none = none
sorted_optional (some v) = some (sort_keys v)

pub optional_mapping_back :
    (o : Option Value)
    → validate_optional_json_mapping o ≡ ok tt
    → read_optional_mapping (sort_keys (optional_value o)) ≡ ok (sorted_optional o)
unfolding read_optional_mapping optional_value sorted_optional sort_keys
    validate_optional_json_mapping
optional_mapping_back none h = refl
optional_mapping_back (some v) h =
    let (fs, e, k) = mapping_back v h in rw e (rw (require_mapping-sort fs k) refl)

traps_items_back :
    (vs : List Value)
    → validate_traps vs ≡ ok tt
    → read_mappings (sort_items (value_items vs)) ≡ ok (map sort_keys vs)
unfolding read_mappings sort_keys value_items validate_traps
traps_items_back [] h = refl
traps_items_back (v ∷ vs) h =
    let (a, b) = >>-eq-ok (validate_json_mapping v) (validate_traps vs) h in
    let (fs, e, k) = mapping_back v a in
    rw e (rw (require_mapping-sort fs k, traps_items_back vs b) refl)

pub traps_back :
    (vs : List Value)
    → validate_traps vs ≡ ok tt
    → read_traps (sort_keys (Value.list (value_items vs))) ≡ ok (map sort_keys vs)
unfolding read_traps sort_keys require_list
traps_back vs h = traps_items_back vs h

state_text_back : (st : ReceivedItemState) → read_item_state (Value.str (state_text st)) ≡ ok st
unfolding read_item_state state_text
state_text_back ReceivedItemState.received = refl
state_text_back ReceivedItemState.pending = refl
state_text_back ReceivedItemState.applied = refl

entry_fields_back :
    (e : ReceivedItemJournalEntry) → entry_of (sorted_reading (entry_fields e)) ≡ ok e
unfolding entry_of entry_fields get read_nat read_int sort_keys
entry_fields_back e = rw (state_text_back e.state) refl

entry_keys_lem :
    (e : ReceivedItemJournalEntry)
    → (keys_are_text (entry_fields e) ≡ true) × (has_just_keys entry_keys (entry_fields e) ≡ true)
unfolding entry_fields keys_are_text has_just_keys
entry_keys_lem e = (refl, refl)

entry_back :
    (e : ReceivedItemJournalEntry) → read_entry (sort_keys (Value.dict (entry_fields e))) ≡ ok e
unfolding read_entry
entry_back e =
    let (texts, keys) = entry_keys_lem e in
    rw
      (
        require_mapping-sort (entry_fields e) texts,
        has_just_keys-sort_fields entry_keys (entry_fields e),
        keys,
      )
      (ap entry_of (sorted_reads (entry_fields e) texts) ∙ entry_fields_back e)

entries_back :
    (journal : List ReceivedItemJournalEntry)
    → read_entries (sort_items (journal_items journal)) ≡ ok journal
unfolding read_entries sort_keys journal_items
entries_back [] = refl
entries_back (e ∷ journal) = rw (entry_back e, entries_back journal) refl

pub journal_back :
    (journal : List ReceivedItemJournalEntry)
    → read_journal (sort_keys (Value.list (journal_items journal))) ≡ ok journal
unfolding read_journal sort_keys require_list
journal_back journal = entries_back journal

receipt_fields_back :
    (r : GameCommandReceipt) → receipt_of (sorted_reading (receipt_fields r)) ≡ ok r
unfolding receipt_of receipt_fields get read_text sort_keys
receipt_fields_back r = refl

receipt_keys_lem :
    (r : GameCommandReceipt)
    → (keys_are_text (receipt_fields r) ≡ true)
      × (has_just_keys receipt_keys (receipt_fields r) ≡ true)
unfolding receipt_fields keys_are_text has_just_keys
receipt_keys_lem r = (refl, refl)

receipt_mapping_back :
    (r : GameCommandReceipt)
    → read_receipt_mapping (sort_keys (Value.dict (receipt_fields r))) ≡ ok r
unfolding read_receipt_mapping
receipt_mapping_back r =
    let (texts, keys) = receipt_keys_lem r in
    rw
      (
        require_mapping-sort (receipt_fields r) texts,
        has_just_keys-sort_fields receipt_keys (receipt_fields r),
        keys,
      )
      (ap receipt_of (sorted_reads (receipt_fields r) texts) ∙ receipt_fields_back r)

pub receipt_back :
    (o : Option GameCommandReceipt) → read_receipt (sort_keys (receipt_value o)) ≡ ok o
unfolding read_receipt receipt_value sort_keys
receipt_back none = refl
receipt_back (some r) =
    ap (λ (q : Result GameCommandReceipt). q >>= (λ x. ok (some x))) (receipt_mapping_back r)

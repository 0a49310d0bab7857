-- ===== src/Encoding/Payload/Read.antt =====
-- The readers of a payload's values in worlds/jak3/persistence.py. A state's fields are typed here, so
-- a value of the wrong type, or a negative number, raises the corruption error while it is read; in
-- the code it is stored first, and the validation that follows raises: the corruption error, or
-- the compatibility error where an earlier of its checks, or the comparison of the contract itself,
-- finds the state incompatible. The payloads that are accepted are the same.
use text.Mathlib.Text.{◌==◌ as str_eq}
use jak3_ap.Prelude.{
  ℕ, ◌==◌, ltb, leb, ℤ, pos, String, Bool, ◌&&◌, ◌||◌, Option, none, some, List, [], ◌∷◌, Result,
  ok, err, corruption, ◌>>=◌, ◌>>◌, require, if◌then◌else◌,
}
use jak3_ap.Value.{Value, Items, Fields, keys_are_text, get, has_just_keys}
use jak3_ap.Persistence.State.{ReceivedItemState, ReceivedItemJournalEntry, GameCommandReceipt}
use jak3_ap.Encoding.Json.{Library}

unfoldable pub read_text : Value → Result String
read_text (Value.str s) = ok s
read_text _ = err corruption

unfoldable pub read_nat : Value → Result ℕ
read_nat (Value.int (pos n)) = ok n
read_nat _ = err corruption

unfoldable pub read_int : Value → Result ℤ
read_int (Value.int n) = ok n
read_int _ = err corruption

unfoldable pub read_bool : Value → Result Bool
read_bool (Value.bool b) = ok b
read_bool _ = err corruption

unfoldable pub read_optional_text : Value → Result (Option String)
read_optional_text Value.null = ok none
read_optional_text (Value.str s) = ok (some s)
read_optional_text _ = err corruption

unfoldable pub read_optional_nat : Value → Result (Option ℕ)
read_optional_nat Value.null = ok none
read_optional_nat (Value.int (pos n)) = ok (some n)
read_optional_nat _ = err corruption

-- `_require_mapping`
unfoldable pub require_mapping : Value → Result Fields
unfolding keys_are_text
require_mapping (Value.dict fs) = require (keys_are_text fs) corruption >> ok fs
require_mapping _ = err corruption

-- `_optional_mapping`
unfoldable pub read_optional_mapping : Value → Result (Option Value)
unfolding require_mapping
read_optional_mapping Value.null = ok none
read_optional_mapping v = do fs ← require_mapping v; ok (some (Value.dict fs))

-- `_require_list`
unfoldable pub require_list : Value → Result Items
require_list (Value.list xs) = ok xs
require_list _ = err corruption

unfoldable pub read_nat_items : Items → Result (List ℕ)
unfolding read_nat
read_nat_items Items.nil = ok []
read_nat_items (Items.cons v xs) = do n ← read_nat v; ns ← read_nat_items xs; ok (n ∷ ns)

unfoldable pub read_nats : Value → Result (List ℕ)
unfolding require_list
read_nats v = require_list v >>= read_nat_items

unfoldable pub read_mappings : Items → Result (List Value)
unfolding require_mapping
read_mappings Items.nil = ok []
read_mappings (Items.cons v xs) = do
  fs ← require_mapping v
  vs ← read_mappings xs
  ok (Value.dict fs ∷ vs)

unfoldable pub read_traps : Value → Result (List Value)
unfolding require_list
read_traps v = require_list v >>= read_mappings

-- `ReceivedItemState(text)`
unfoldable pub read_item_state : Value → Result ReceivedItemState
read_item_state (Value.str s) =
    if str_eq s "received"
    then ok ReceivedItemState.received
    else if str_eq s "pending"
    then ok ReceivedItemState.pending
    else if str_eq s "applied"
    then ok ReceivedItemState.applied
    else err corruption
read_item_state _ = err corruption

abbrev pub entry_keys : List String
entry_keys = "index" ∷ "item_id" ∷ "location_id" ∷ "source_player" ∷ "flags" ∷ "state" ∷ []

unfoldable pub entry_of : (String → Value) → Result ReceivedItemJournalEntry
unfolding read_nat read_int read_item_state
entry_of at = do
  index ← read_nat (at "index")
  item_id ← read_nat (at "item_id")
  location_id ← read_int (at "location_id")
  source_player ← read_nat (at "source_player")
  flags ← read_nat (at "flags")
  state ← read_item_state (at "state")
  ok (record {
    index = index;
    item_id = item_id;
    location_id = location_id;
    source_player = source_player;
    flags = flags;
    state = state;
  })

-- `_deserialize_received_item_entry`
unfoldable pub read_entry : Value → Result ReceivedItemJournalEntry
unfolding require_mapping entry_of has_just_keys get
read_entry v = do
  entry ← require_mapping v
  require (has_just_keys entry_keys entry) corruption
  entry_of (λ key. get key entry)

unfoldable pub read_entries : Items → Result (List ReceivedItemJournalEntry)
unfolding read_entry
read_entries Items.nil = ok []
read_entries (Items.cons v xs) = do e ← read_entry v; es ← read_entries xs; ok (e ∷ es)

unfoldable pub read_journal : Value → Result (List ReceivedItemJournalEntry)
unfolding require_list read_entries
read_journal v = require_list v >>= read_entries

-- the order of pairs that `sorted` uses
unfoldable pub insert_count : ℕ → ℕ → List (ℕ × ℕ) → List (ℕ × ℕ)
insert_count i c [] = (i, c) ∷ []
insert_count i c ((j, d) ∷ counts) =
    let rest = insert_count i c counts in
    if ltb i j || i == j && leb c d then (i, c) ∷ (j, d) ∷ counts else (j, d) ∷ rest

read_number : Option ℕ → Result ℕ
read_number none = err corruption
read_number (some n) = ok n

-- `_parse_decimal_id`
unfoldable pub parse_decimal_id : Library → Value → Result ℕ
unfolding read_number
parse_decimal_id lib (Value.str s) = read_number (lib.parse_decimal s)
parse_decimal_id lib _ = err corruption

-- one count, with the others read after it
unfoldable pub read_count : Library → Value → Value → Result (List (ℕ × ℕ)) → Result (List (ℕ × ℕ))
unfolding parse_decimal_id read_nat insert_count
read_count lib k v others = do
  item_id ← parse_decimal_id lib k
  count ← read_nat v
  counts ← others
  ok (insert_count item_id count counts)

unfoldable pub read_count_fields : Library → Fields → Result (List (ℕ × ℕ))
unfolding read_count
read_count_fields lib Fields.end = ok []
read_count_fields lib (Fields.field k v fs) = read_count lib k v (read_count_fields lib fs)

unfoldable pub read_counts : Library → Value → Result (List (ℕ × ℕ))
unfolding require_mapping read_count_fields
read_counts lib v = require_mapping v >>= read_count_fields lib

abbrev pub receipt_keys : List String
receipt_keys = "command_id" ∷ "command_kind" ∷ "result" ∷ []

unfoldable pub receipt_of : (String → Value) → Result GameCommandReceipt
unfolding read_text
receipt_of at = do
  command_id ← read_text (at "command_id")
  command_kind ← read_text (at "command_kind")
  result ← read_text (at "result")
  ok (record { command_id = command_id; command_kind = command_kind; result = result })

unfoldable pub read_receipt_mapping : Value → Result GameCommandReceipt
unfolding require_mapping receipt_of has_just_keys get
read_receipt_mapping v = do
  fields ← require_mapping v
  require (has_just_keys receipt_keys fields) corruption
  receipt_of (λ key. get key fields)

unfoldable pub read_receipt : Value → Result (Option GameCommandReceipt)
unfolding read_receipt_mapping
read_receipt Value.null = ok none
read_receipt v = do receipt ← read_receipt_mapping v; ok (some receipt)

-- ===== src/ReceivedItems/Parse.antt =====
-- `parse_received_items_packet` of worlds/jak3/received_items.py.
pub mod Accepts
use text.Mathlib.Text.{◌==◌ as str_eq}
use jak3_ap.Prelude.{
  ℕ, suc, ◌+◌, ◌≤◌, ◌≡◌, refl, ℤ, pos, negsuc, nat_abs, is_neg, String, Bool, true, false, ◌&&◌,
  ◌||◌, Option, none, some, List, [], ◌∷◌, leb, if◌then◌else◌, arith, Bool-cases, inl, inr,
}
use jak3_ap.IdSet.{member}
use jak3_ap.Registry.{item_ids}
use jak3_ap.Value.{Value, Items, Fields, get}
use jak3_ap.Persistence.State.{ReceivedItemState, ReceivedItemJournalEntry}
use jak3_ap.Persistence.Journal.{network_id_absolute_limit}
use jak3_ap.ReceivedItems.{ReceivedItemsPacket, milestone_8_item_ids}

-- The reasons of a `ReceivedItemsPacketError`; those about an entry carry its index. The error's
-- other attributes, which repeat the entry's values for the log, are left out.
pub data PacketError : Type 0 where
  packet_not_mapping invalid_index items_not_sequence index_range_overflow : PacketError
  malformed_entry unknown_item_id item_outside_milestone_8 : ℕ → PacketError

pub data Parsed {ℓ} (A : Type ℓ) : Type ℓ where
  parsed : A → Parsed A
  rejected : PacketError → Parsed A

infixl 10 ◌>>=◌
abbrev pub ◌>>=◌ {ℓ κ} : {A : Type ℓ} {B : Type κ} → Parsed A → (A → Parsed B) → Parsed B
parsed a >>= f = f a
rejected e >>= f = rejected e

unfoldable pub count_items : Items → ℕ
count_items Items.nil = 0
count_items (Items.cons v xs) = suc (count_items xs)

-- the elements of a sequence of three or four
abbrev pub four_values : Items → Option (Value × Value × Value × Value)
four_values (Items.cons a (Items.cons b (Items.cons c Items.nil))) =
    some (a, b, c, Value.int (pos 0))
four_values (Items.cons a (Items.cons b (Items.cons c (Items.cons d Items.nil)))) =
    some (a, b, c, d)
four_values _ = none

-- `_network_item_values`
unfoldable pub network_item_values : Value → Option (Value × Value × Value × Value)
network_item_values (Value.network_item a b c d) = some (a, b, c, d)
network_item_values (Value.list xs) = four_values xs
network_item_values (Value.tuple xs) = four_values xs
network_item_values _ = none

-- `type(value) is int and abs(value) <= NETWORK_ID_ABSOLUTE_LIMIT`
unfoldable pub network_int : Value → Option ℤ
network_int (Value.int n) = if leb (nat_abs n) network_id_absolute_limit then some n else none
network_int _ = none

-- an integer that is not negative
abbrev pub as_nat : ℤ → Option ℕ
as_nat (pos n) = some n
as_nat (negsuc n) = none

-- the two tests of the item ID
check_item : ℕ → ℤ → ℤ → ℕ → ℕ → Parsed ReceivedItemJournalEntry
check_item i (negsuc n) location player flags = rejected (unknown_item_id i)
check_item i (pos item_id) location player flags =
    if member item_id item_ids
    then if member item_id milestone_8_item_ids
      then parsed (record {
        index = i;
        item_id = item_id;
        location_id = location;
        source_player = player;
        flags = flags;
        state = ReceivedItemState.pending;
      })
      else rejected (item_outside_milestone_8 i)
    else rejected (unknown_item_id i)

-- the tests on an entry whose four values are integers in range
check_ints : ℕ → ℤ → ℤ → Option ℕ → Option ℕ → Parsed ReceivedItemJournalEntry
unfolding check_item
check_ints i item location (some player) (some flags) = check_item i item location player flags
check_ints i item location _ _ = rejected (malformed_entry i)

check_values : ℕ → Option ℤ → Option ℤ → Option ℤ → Option ℤ → Parsed ReceivedItemJournalEntry
unfolding check_ints
check_values i (some item) (some location) (some player) (some flags) =
    check_ints i item location (as_nat player) (as_nat flags)
check_values i _ _ _ _ = rejected (malformed_entry i)

check_network_item : ℕ → Option (Value × Value × Value × Value) → Parsed ReceivedItemJournalEntry
unfolding check_values network_int
check_network_item i none = rejected (malformed_entry i)
check_network_item i (some (a, b, c, d)) =
    check_values i (network_int a) (network_int b) (network_int c) (network_int d)

-- the body of the loop over the items
unfoldable pub parse_entry : ℕ → Value → Parsed ReceivedItemJournalEntry
unfolding check_network_item network_item_values
parse_entry i raw = check_network_item i (network_item_values raw)

unfoldable pub parse_entries : ℕ → Items → Parsed (List ReceivedItemJournalEntry)
parse_entries i Items.nil = parsed []
parse_entries i (Items.cons raw xs) =
    let rest = parse_entries (suc i) xs in parse_entry i raw >>= λ e. rest >>= λ es. parsed (e ∷ es)

-- `type(index) is int and 0 <= index <= NETWORK_ID_ABSOLUTE_LIMIT`
check_index : Value → Option ℕ
check_index (Value.int (pos n)) = if leb n network_id_absolute_limit then some n else none
check_index _ = none

sequence_of : Value → Option Items
sequence_of (Value.list xs) = some xs
sequence_of (Value.tuple xs) = some xs
sequence_of _ = none

parse_parts : Option ℕ → Option Items → Parsed ReceivedItemsPacket
parse_parts none _ = rejected invalid_index
parse_parts (some index) none = rejected items_not_sequence
parse_parts (some index) (some raw_items) =
    if leb (index + count_items raw_items) network_id_absolute_limit
    then (do
      entries ← parse_entries index raw_items
      parsed (record { index = index; entries = entries }))
    else rejected index_range_overflow

unfoldable pub parse_received_items_packet : Value → Parsed ReceivedItemsPacket
unfolding check_index sequence_of parse_parts get
parse_received_items_packet (Value.dict args) =
    parse_parts (check_index (get "index" args)) (sequence_of (get "items" args))
parse_received_items_packet _ = rejected packet_not_mapping

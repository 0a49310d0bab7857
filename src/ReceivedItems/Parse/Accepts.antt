-- ===== src/ReceivedItems/Parse/Accepts.antt =====
-- What `parse_received_items_packet` accepts.
use jak3_ap.Prelude.{
  ℕ, suc, ◌+◌, ◌≤◌, ◌≡◌, refl, ℤ, nat_abs, true, Option, none, some, List, [], ◌∷◌, arith, length,
  sym, ap, subst, leb, Bool-cases, inl, inr,
}
use jak3_ap.IdSet.{member}
use jak3_ap.Value.{Value, Items}
use jak3_ap.Persistence.State.{ReceivedItemState, ReceivedItemJournalEntry}
use jak3_ap.Persistence.Journal.{network_id_absolute_limit}
use jak3_ap.Persistence.Journal.Consistent.{EntryFits, EntriesFit}
use jak3_ap.ReceivedItems.{ReceivedItemsPacket, end_index, milestone_8_item_ids}
use jak3_ap.ReceivedItems.Parse.{
  ◌>>=◌, as_nat, Parsed, parsed, rejected, count_items, network_item_values, network_int,
  check_item, check_ints, check_values, check_network_item, parse_entry, parse_entries, parse_parts,
  parse_received_items_packet,
}

-- a new entry at its index: pending, and of an item of the Milestone 8 slice
abbrev pub NewEntry : ℕ → ReceivedItemJournalEntry → Type 0
NewEntry i e =
    EntryFits i e
    × (member e.item_id milestone_8_item_ids ≡ true)
    × (e.state ≡ ReceivedItemState.pending)

abbrev pub NewEntries : ℕ → List ReceivedItemJournalEntry → Type 0
NewEntries i [] = Unit
NewEntries i (e ∷ entries) = NewEntry i e × NewEntries (suc i) entries

network_int_bound :
    (v : Value) {n : ℤ} → network_int v ≡ some n → nat_abs n ≤ network_id_absolute_limit
unfolding network_int
network_int_bound (Value.int n) h = ground arith
network_int_bound v h = cc

check_item_new :
    (i : ℕ) (item location : ℤ) (player flags : ℕ) {e : ReceivedItemJournalEntry}
    → nat_abs location ≤ network_id_absolute_limit
    → check_item i item location player flags ≡ parsed e
    → NewEntry i e
unfolding check_item
check_item_new i item location player flags b h = ground arith

check_ints_new :
    (i : ℕ) (item location : ℤ) (player flags : Option ℕ) {e : ReceivedItemJournalEntry}
    → nat_abs location ≤ network_id_absolute_limit
    → check_ints i item location player flags ≡ parsed e
    → NewEntry i e
unfolding check_ints
check_ints_new i item location (some player) (some flags) b h =
    check_item_new i item location player flags b h
check_ints_new i item location _ _ b h = cc

check_values_new :
    (i : ℕ) (a b c d : Option ℤ) {e : ReceivedItemJournalEntry}
    → ((n : ℤ) → b ≡ some n → nat_abs n ≤ network_id_absolute_limit)
    → check_values i a b c d ≡ parsed e
    → NewEntry i e
unfolding check_values
check_values_new i (some item) (some location) (some player) (some flags) bound h =
    check_ints_new i item location (as_nat player) (as_nat flags) (bound location refl) h
check_values_new i _ _ _ _ bound h = cc

check_network_item_new :
    (i : ℕ) (raw : Option (Value × Value × Value × Value)) {e : ReceivedItemJournalEntry}
    → check_network_item i raw ≡ parsed e
    → NewEntry i e
unfolding check_network_item
check_network_item_new i none h = cc
check_network_item_new i (some (a, b, c, d)) h =
    check_values_new i (network_int a) (network_int b) (network_int c) (network_int d)
      (λ n. network_int_bound b) h

parse_entry_new :
    (i : ℕ) (raw : Value) {e : ReceivedItemJournalEntry}
    → parse_entry i raw ≡ parsed e
    → NewEntry i e
unfolding parse_entry
parse_entry_new i raw h = check_network_item_new i (network_item_values raw) h

>>=-eq-parsed {ℓ κ} :
    {A : Type ℓ} {B : Type κ} (m : Parsed A) (f : A → Parsed B) {b : B}
    → (m >>= f) ≡ parsed b
    → (a : A) × (m ≡ parsed a) × (f a ≡ parsed b)
>>=-eq-parsed (parsed a) f h = (a, refl, h)
>>=-eq-parsed (rejected e) f h = cc

parse_entries_new :
    (i : ℕ) (xs : Items) (es : List ReceivedItemJournalEntry)
    → parse_entries i xs ≡ parsed es
    → NewEntries i es × (length es ≡ count_items xs)
unfolding parse_entries count_items
parse_entries_new i Items.nil [] h = (tt, refl)
parse_entries_new i Items.nil (e ∷ es) h = cc
parse_entries_new i (Items.cons raw xs) es h =
    let (e, he, h') = >>=-eq-parsed (parse_entry i raw) _ h in
    let (es', hes, h'') = >>=-eq-parsed (parse_entries (suc i) xs) _ h' in
    let (new, len) = parse_entries_new (suc i) xs es' hes in
    let same : e ∷ es' ≡ es = cc in
    subst (λ l. NewEntries i l × (length l ≡ suc (count_items xs))) same
      ((parse_entry_new i raw he, new), ap suc len)

parse_parts_new :
    (index : Option ℕ) (xs : Option Items) (packet : ReceivedItemsPacket)
    → parse_parts index xs ≡ parsed packet
    → NewEntries packet.index packet.entries × (end_index packet ≤ network_id_absolute_limit)
unfolding parse_parts
parse_parts_new none xs packet h = cc
parse_parts_new (some index) none packet h = cc
parse_parts_new (some index) (some xs) packet h =
    elim (Bool-cases (leb (index + count_items xs) network_id_absolute_limit)) [
      | inl fits ↦
          let (es, hes, e) = >>=-eq-parsed (parse_entries index xs) _ (rw fits at h) in
          let (new, len) = parse_entries_new index xs es hes in
          (
            subst (λ (q : ReceivedItemsPacket). NewEntries q.index q.entries)
                {x = record { index = index; entries = es }} (cc) new,
            subst (λ (q : ReceivedItemsPacket). end_index q ≤ network_id_absolute_limit)
                {x = record { index = index; entries = es }} (cc) (ground arith),
          )
      | inr over ↦ cc (sym (rw over at h))
    ]

-- A packet that the parser accepts has new entries, in order from its index, and ends within the
-- limit on network IDs.
pub parse_received_items_packet_new :
    (args : Value) (packet : ReceivedItemsPacket)
    → parse_received_items_packet args ≡ parsed packet
    → NewEntries packet.index packet.entries × (end_index packet ≤ network_id_absolute_limit)
unfolding parse_received_items_packet
parse_received_items_packet_new (Value.dict args) packet h = parse_parts_new _ _ packet h
parse_received_items_packet_new args packet h = cc

-- New entries are fitting entries.
pub NewEntries-EntriesFit :
    (i : ℕ) (es : List ReceivedItemJournalEntry) → NewEntries i es → EntriesFit i es
NewEntries-EntriesFit i [] h = tt
NewEntries-EntriesFit i (e ∷ es) h = (h.0.0, NewEntries-EntriesFit (suc i) es h.1)

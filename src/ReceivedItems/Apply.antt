-- ===== src/ReceivedItems/Apply.antt =====
-- `apply_received_items_packet` on a valid state and a packet with fitting entries.
use jak3_ap.Prelude.{
  same_int_refl, ℕ, suc, ◌≤◌, ◌<◌, ◌≡◌, ◌≢◌, refl, ◌∙◌, subst, ◌⊎◌, inl, inr, true, false, not,
  Option, none, some, List, [], ◌∷◌, ◌++◌, arith, length, get_elem?, take, drop, ok, ◌==◌, ltb,
  if◌then◌else◌, Bool-cases,
}
use jak3_ap.Persistence.State.{ReceivedItemJournalEntry, PersistentState}
use jak3_ap.Persistence.Identity.{Platform}
use jak3_ap.Persistence.Journal.Consistent.{EntryFits, EntriesFit, EntriesFit-append}
use jak3_ap.Outbox.Transition.{IsValid}
use jak3_ap.ReceivedItems.{
  ReceivedItemsPacket, end_index, PacketOutcome, PacketTransition, with_received_item_journal,
  same_packet_identity, same_identities, same_received_items, keep_state, rebuild,
  history_discrepancies, replace_canonical_history, keeps, accept, apply_received_items_packet,
}
use jak3_ap.ReceivedItems.Journal.{
  valid-IsConsistent, with_received_item_journal-IsValid, journal-post_init,
}

same_packet_identity_refl : (e : ReceivedItemJournalEntry) → same_packet_identity e e ≡ true
unfolding same_packet_identity
same_packet_identity_refl e = ground (arith, same_int_refl e.location_id)

pub same_identities_refl : (xs : List ReceivedItemJournalEntry) → same_identities xs xs ≡ true
unfolding same_identities
same_identities_refl [] = refl
same_identities_refl (e ∷ xs) = ground (arith, same_packet_identity_refl e, same_identities_refl xs)

keep_state_fits :
    (k : ℕ) (e : ReceivedItemJournalEntry) (o : Option ReceivedItemJournalEntry)
    → EntryFits k e
    → EntryFits k (keep_state e o)
unfolding keep_state
keep_state_fits k e none h = h
keep_state_fits k e (some d) h = ground arith

same_identity-keep_state :
    (e : ReceivedItemJournalEntry) (o : Option ReceivedItemJournalEntry)
    → same_packet_identity (keep_state e o) e ≡ true
unfolding same_packet_identity keep_state
same_identity-keep_state e none = ground (arith, same_int_refl e.location_id)
same_identity-keep_state e (some d) = ground (arith, same_int_refl e.location_id)

pub rebuild-EntriesFit :
    (k : ℕ) (old xs : List ReceivedItemJournalEntry)
    → EntriesFit k xs
    → EntriesFit k (rebuild old xs)
unfolding rebuild
rebuild-EntriesFit k old [] h = tt
rebuild-EntriesFit k old (e ∷ xs) h =
    (keep_state_fits k e (get_elem? old e.index) h.0, rebuild-EntriesFit (suc k) old xs h.1)

pub same_identities-rebuild :
    (old xs : List ReceivedItemJournalEntry) → same_identities (rebuild old xs) xs ≡ true
unfolding same_identities rebuild
same_identities-rebuild old [] = refl
same_identities-rebuild old (e ∷ xs) =
    ground
      (arith, same_identity-keep_state e (get_elem? old e.index), same_identities-rebuild old xs)

-- the branches of the code
module _ (p : Platform) (s : PersistentState) (packet : ReceivedItemsPacket) where
  pub when_replaced :
      packet.index ≡ 0
      → same_identities s.received_item_journal packet.entries ≡ false
      → apply_received_items_packet p s packet ≡ replace_canonical_history p s packet
  unfolding apply_received_items_packet
  when_replaced i d = ground arith

  pub when_repeated :
      packet.index ≡ 0
      → same_identities s.received_item_journal packet.entries ≡ true
      → apply_received_items_packet p s packet ≡ ok (keeps PacketOutcome.duplicate s)
  unfolding apply_received_items_packet
  when_repeated i d = ground arith

  pub when_next :
      packet.index ≢ 0
      → packet.index ≡ s.next_received_item_index
      → apply_received_items_packet p s packet ≡ accept p s packet
  unfolding apply_received_items_packet
  when_next n e = ground arith

  pub when_historical :
      packet.index ≢ 0
      → packet.index < s.next_received_item_index
      → end_index packet ≤ s.next_received_item_index
      → same_identities
          (take (length packet.entries) (drop packet.index s.received_item_journal))
          packet.entries
        ≡ true
      → apply_received_items_packet p s packet ≡ ok (keeps PacketOutcome.duplicate s)
  unfolding apply_received_items_packet
  when_historical n lt le same = ground arith

  -- the outcome of a packet that is neither at index 0 nor at the next index
  unfoldable pub kept_outcome : PacketOutcome
  kept_outcome =
      if ltb s.next_received_item_index packet.index
      then PacketOutcome.gap
      else if ltb s.next_received_item_index (end_index packet)
      then PacketOutcome.partial_overlap
      else if same_identities
          (take (length packet.entries) (drop packet.index s.received_item_journal)) packet.entries
      then PacketOutcome.duplicate
      else PacketOutcome.conflict

  pub when_kept :
      packet.index ≢ 0
      → packet.index ≢ s.next_received_item_index
      → apply_received_items_packet p s packet ≡ ok (keeps kept_outcome s)
  unfolding apply_received_items_packet kept_outcome
  when_kept n d = ground arith

  -- the transition of an accepted packet
  unfoldable pub accepted_as : PacketTransition
  accepted_as = record {
    outcome = PacketOutcome.accepted;
    state = with_received_item_journal s (s.received_item_journal ++ packet.entries);
    changed = not (
        same_received_items
          (with_received_item_journal s (s.received_item_journal ++ packet.entries)) s);
    history_discrepancies = [];
  }

  unfoldable pub replaced_as : PacketTransition
  replaced_as = record {
    outcome = PacketOutcome.replaced;
    state = with_received_item_journal s (rebuild s.received_item_journal packet.entries);
    changed = not (
        same_received_items
          (with_received_item_journal s (rebuild s.received_item_journal packet.entries)) s);
    history_discrepancies = history_discrepancies s.received_item_journal packet.entries;
  }

  pub accept_lem :
      IsValid p s
      → EntriesFit 0 (s.received_item_journal ++ packet.entries)
      → accept p s packet ≡ ok accepted_as
  unfolding accept accepted_as
  accept_lem v f = rw (journal-post_init p s _ v f)

  pub replace_lem :
      IsValid p s
      → EntriesFit 0 (rebuild s.received_item_journal packet.entries)
      → replace_canonical_history p s packet ≡ ok replaced_as
  unfolding replace_canonical_history replaced_as
  replace_lem v f = rw (journal-post_init p s _ v f)

-- What a returned transition has done: it kept the state; or it appended the packet, which stood
-- at the next index; or, for a packet at index 0, the journal now has the packet's identities.
pub data Applied (s : PersistentState) (packet : ReceivedItemsPacket) (t : PacketTransition)
    : Type 0 where
  kept : t.state ≡ s → t.changed ≡ false → Applied s packet t
  appended :
      t.outcome ≡ PacketOutcome.accepted
      → packet.index ≡ s.next_received_item_index
      → t.state ≡ with_received_item_journal s (s.received_item_journal ++ packet.entries)
      → Applied s packet t
  rewritten :
      t.outcome ≡ PacketOutcome.replaced
      → packet.index ≡ 0
      → t.state ≡ with_received_item_journal s (rebuild s.received_item_journal packet.entries)
      → Applied s packet t

kept-Applied :
    (s : PersistentState) (packet : ReceivedItemsPacket) (o : PacketOutcome)
    → Applied s packet (keeps o s)
unfolding keeps
kept-Applied s packet o = kept refl refl

-- a packet that stands at the next index goes on from the journal
pub next-EntriesFit :
    (p : Platform) (s : PersistentState) (packet : ReceivedItemsPacket)
    → IsValid p s
    → packet.index ≡ s.next_received_item_index
    → EntriesFit packet.index packet.entries
    → EntriesFit 0 (s.received_item_journal ++ packet.entries)
next-EntriesFit p s packet v i f =
    let c = valid-IsConsistent p s v in
    EntriesFit-append 0 s.received_item_journal packet.entries c.entries_fit
      (subst (λ n. EntriesFit n packet.entries) (i ∙ c.length_is ∙ omega arith) f)

pub index-cases : (a b : ℕ) → (a ≡ 0) ⊎ (((a ≢ 0) × (a ≡ b)) ⊎ ((a ≢ 0) × (a ≢ b)))
index-cases a b = elim (Bool-cases (a == 0)) [
  | inl z ↦ inl (ground arith)
  | inr n ↦ inr (elim (Bool-cases (a == b)) [
    | inl e ↦ inl (ground arith, ground arith)
    | inr d ↦ inr (ground arith, ground arith)
  ])
]

module _ (p : Platform) (s : PersistentState) (packet : ReceivedItemsPacket) (v : IsValid p s)
    (fits : EntriesFit packet.index packet.entries) where
  pub first_fits : packet.index ≡ 0 → EntriesFit 0 (rebuild s.received_item_journal packet.entries)
  first_fits i =
      rebuild-EntriesFit 0 s.received_item_journal packet.entries
        (subst (λ n. EntriesFit n packet.entries) i fits)

  -- On a valid state a packet with fitting entries never raises: it returns a valid state, with the
  -- journal kept, extended at its end, or rewritten by a packet at index 0.
  pub apply-Applied :
      (t : PacketTransition) × (apply_received_items_packet p s packet ≡ ok t)
      × IsValid p t.state
      × Applied s packet t
  apply-Applied = elim (index-cases packet.index s.next_received_item_index) [
    | inl i ↦ elim (Bool-cases (same_identities s.received_item_journal packet.entries)) [
      | inl same ↦ (
        keeps PacketOutcome.duplicate s,
        when_repeated p s packet i same,
        unfold keeps in v,
        kept-Applied s packet PacketOutcome.duplicate,
      )
      | inr differs ↦ (
        replaced_as p s packet,
        when_replaced p s packet i differs ∙ replace_lem p s packet v (first_fits i),
        unfold replaced_as in with_received_item_journal-IsValid p s _ v (first_fits i),
        unfold replaced_as in rewritten refl i refl,
      )
    ]
    | inr (inl (n, i)) ↦ (
      accepted_as p s packet,
      when_next p s packet n i ∙ accept_lem p s packet v (next-EntriesFit p s packet v i fits),
      unfold accepted_as in
          with_received_item_journal-IsValid p s _ v (next-EntriesFit p s packet v i fits),
      unfold accepted_as in appended refl i refl,
    )
    | inr (inr (n, d)) ↦ (
      keeps (kept_outcome p s packet) s,
      when_kept p s packet n d,
      unfold keeps in v,
      kept-Applied s packet (kept_outcome p s packet),
    )
  ]

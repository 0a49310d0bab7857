-- ===== src/ReceivedItems/Redelivery.antt =====
-- Archipelago may send a packet again: a second delivery changes nothing.
use mathlib.Core.List.{append-nil}
use jak3_ap.Prelude.{
  ℕ, ◌<◌, ◌≡◌, ◌≢◌, refl, sym, ap, ◌∙◌, subst, ◌⊎◌, inl, inr, true, List, [], ◌∷◌, ◌++◌, arith,
  length, length-append, take, drop, ok, Bool-cases,
}
use jak3_ap.Persistence.State.{ReceivedItemJournalEntry, PersistentState}
use jak3_ap.Persistence.Identity.{Platform}
use jak3_ap.Persistence.Journal.Consistent.{EntriesFit}
use jak3_ap.Outbox.Transition.{IsValid}
use jak3_ap.ReceivedItems.{
  ReceivedItemsPacket, PacketOutcome, PacketTransition, with_received_item_journal, same_identities,
  keeps, apply_received_items_packet,
}
use jak3_ap.ReceivedItems.Journal.{valid-IsConsistent, with_received_item_journal-IsValid}
use jak3_ap.ReceivedItems.Apply.{
  same_identities_refl, same_identities-rebuild, when_repeated, when_replaced, when_next,
  when_historical, when_kept, kept_outcome, accepted_as, replaced_as, accept_lem, replace_lem,
  first_fits, next-EntriesFit, index-cases,
}

module _ {ℓ} {A : Type ℓ} where
  take-length : (xs : List A) → take (length xs) xs ≡ xs
  take-length [] = refl
  take-length (x ∷ xs) = ap (λ ys. x ∷ ys) (take-length xs)

  drop-append : (xs ys : List A) → drop (length xs) (xs ++ ys) ≡ ys
  drop-append [] ys = refl
  drop-append (x ∷ xs) ys = drop-append xs ys

-- the slice of an extended journal at the packet's index is the packet
slice_lem :
    (xs ys : List ReceivedItemJournalEntry) (n : ℕ)
    → n ≡ length xs
    → same_identities (take (length ys) (drop n (xs ++ ys))) ys ≡ true
slice_lem xs ys n e = rw (e, drop-append xs ys, take-length ys) (same_identities_refl ys)

empty-cases : (ys : List ReceivedItemJournalEntry) → (ys ≡ []) ⊎ (0 < length ys)
empty-cases [] = inl refl
empty-cases (y ∷ ys) = inr (omega arith)

module _ (p : Platform) (s : PersistentState) (packet : ReceivedItemsPacket) (v : IsValid p s)
    (fits : EntriesFit packet.index packet.entries) where
  grown : PersistentState
  grown = with_received_item_journal s (s.received_item_journal ++ packet.entries)

  again_longer :
      packet.index ≢ 0
      → packet.index ≡ s.next_received_item_index
      → 0 < length packet.entries
      → apply_received_items_packet p grown packet ≡ ok (keeps PacketOutcome.duplicate grown)
  unfolding grown with_received_item_journal
  again_longer n i l =
      let c = valid-IsConsistent p s v in
      when_historical p grown packet n
        (omega (arith, i, c.length_is, length-append s.received_item_journal packet.entries))
        (omega (arith, i, c.length_is, length-append s.received_item_journal packet.entries))
        (slice_lem s.received_item_journal packet.entries packet.index (i ∙ c.length_is))

  grown-IsValid : packet.index ≡ s.next_received_item_index → IsValid p grown
  unfolding grown
  grown-IsValid i = with_received_item_journal-IsValid p s _ v (next-EntriesFit p s packet v i fits)

  grown_empty :
      packet.entries ≡ []
      → with_received_item_journal grown (grown.received_item_journal ++ packet.entries) ≡ grown
  unfolding grown with_received_item_journal
  grown_empty e = rw e (simp append-nil)

  grown_next :
      packet.entries ≡ []
      → packet.index ≡ s.next_received_item_index
      → packet.index ≡ grown.next_received_item_index
  unfolding grown with_received_item_journal
  grown_next e i =
      let c = valid-IsConsistent p s v in
      omega
        (arith, i, c.length_is, length-append s.received_item_journal packet.entries, ap length e)

  grown_fits :
      packet.entries ≡ []
      → packet.index ≡ s.next_received_item_index
      → EntriesFit 0 (grown.received_item_journal ++ packet.entries)
  unfolding grown with_received_item_journal
  grown_fits e i =
      subst (EntriesFit 0)
        (sym (ap (λ ys. (s.received_item_journal ++ packet.entries) ++ ys) e ∙ append-nil _))
        (next-EntriesFit p s packet v i fits)

  again_appended :
      packet.index ≢ 0
      → packet.index ≡ s.next_received_item_index
      → (t' : PacketTransition) × (apply_received_items_packet p grown packet ≡ ok t')
        × (t'.state ≡ grown)
  again_appended n i = elim (empty-cases packet.entries) [
    | inl e ↦ (
      accepted_as p grown packet,
      when_next p grown packet n (grown_next e i)
          ∙ accept_lem p grown packet (grown-IsValid i) (grown_fits e i),
      unfold accepted_as in grown_empty e,
    )
    | inr l ↦ (keeps PacketOutcome.duplicate grown, again_longer n i l, unfold keeps in refl)
  ]

  again_rewritten :
      packet.index ≡ 0
      → apply_received_items_packet p (replaced_as p s packet).state packet
        ≡ ok (keeps PacketOutcome.duplicate (replaced_as p s packet).state)
  unfolding replaced_as with_received_item_journal
  again_rewritten i =
      when_repeated p (replaced_as p s packet).state packet i
        (same_identities-rebuild s.received_item_journal packet.entries)

  -- On a valid state, delivering a packet with fitting entries a second time returns, and changes
  -- the state no further.
  pub apply_again :
      (t t' : PacketTransition) × (apply_received_items_packet p s packet ≡ ok t)
      × (apply_received_items_packet p t.state packet ≡ ok t')
      × (t'.state ≡ t.state)
  apply_again = elim (index-cases packet.index s.next_received_item_index) [
    | inl i ↦ elim (Bool-cases (same_identities s.received_item_journal packet.entries)) [
      | inl same ↦
          let e = when_repeated p s packet i same in
          (
            keeps PacketOutcome.duplicate s,
            keeps PacketOutcome.duplicate s,
            e,
            unfold keeps in e,
            refl,
          )
      | inr differs ↦ (
        replaced_as p s packet,
        keeps PacketOutcome.duplicate (replaced_as p s packet).state,
        when_replaced p s packet i differs
            ∙ replace_lem p s packet v (first_fits p s packet v fits i),
        again_rewritten i,
        unfold keeps in refl,
      )
    ]
    | inr (inl (n, i)) ↦
        let (t', e, same) = again_appended n i in
        (
          accepted_as p s packet,
          t',
          when_next p s packet n i ∙ accept_lem p s packet v (next-EntriesFit p s packet v i fits),
          unfold accepted_as grown in e,
          unfold accepted_as grown in same,
        )
    | inr (inr (n, d)) ↦
        let e = when_kept p s packet n d in
        (
          keeps (kept_outcome p s packet) s,
          keeps (kept_outcome p s packet) s,
          e,
          unfold keeps in e,
          refl,
        )
  ]

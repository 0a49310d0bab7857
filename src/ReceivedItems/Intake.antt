-- ===== src/ReceivedItems/Intake.antt =====
-- From the raw packet to the ledger: parse, then apply, as the client does.
use jak3_ap.Prelude.{◌≡◌, ok}
use jak3_ap.Value.{Value}
use jak3_ap.Persistence.State.{PersistentState}
use jak3_ap.Persistence.Identity.{Platform}
use jak3_ap.Outbox.Transition.{IsValid}
use jak3_ap.ReceivedItems.{ReceivedItemsPacket, PacketTransition, apply_received_items_packet}
use jak3_ap.ReceivedItems.Parse.{parsed, parse_received_items_packet}
use jak3_ap.ReceivedItems.Parse.Accepts.{parse_received_items_packet_new, NewEntries-EntriesFit}
use jak3_ap.ReceivedItems.Apply.{Applied, apply-Applied}
use jak3_ap.ReceivedItems.Redelivery

module _ (p : Platform) (s : PersistentState) (args : Value) (packet : ReceivedItemsPacket)
    (v : IsValid p s) (accepted : parse_received_items_packet args ≡ parsed packet) where
  -- On a valid state, a packet that the parser accepts never raises when it is applied: a valid
  -- state comes back, whose journal is kept, extended at its end by the packet, which then stood
  -- at the next index, or rewritten by a packet at index 0.
  pub receive-Applied :
      (t : PacketTransition) × (apply_received_items_packet p s packet ≡ ok t)
      × IsValid p t.state
      × Applied s packet t
  receive-Applied = apply-Applied p s packet v (
      NewEntries-EntriesFit packet.index packet.entries
        (parse_received_items_packet_new args packet accepted).0)

  -- On a valid state, applying a packet that the parser accepts a second time returns, and changes
  -- the state no further.
  pub receive_again :
      (t t' : PacketTransition) × (apply_received_items_packet p s packet ≡ ok t)
      × (apply_received_items_packet p t.state packet ≡ ok t')
      × (t'.state ≡ t.state)
  receive_again = Redelivery.apply_again p s packet v (
      NewEntries-EntriesFit packet.index packet.entries
        (parse_received_items_packet_new args packet accepted).0)

-- ===== src/Tests/Outbox.antt =====
-- The location ledger at concrete inputs.
use jak3_ap.Prelude.{ℕ, ◌≡◌, refl, true, not, ◌&&◌, ◌||◌, [], ◌∷◌, ok, ◌==◌, ◌↔◌}
use jak3_ap.IdSet.{member, subset, Subset}
use jak3_ap.IdSet.Laws.{subset_sound}
use jak3_ap.Registry.{location_ids}
use jak3_ap.Outbox.{
  LocationTransition, observable_locations, observe_local_location, reconcile_connected,
  reconcile_room_update,
}
use jak3_ap.Outbox.Operations.{
  Ledgers, observe_local_location-Ledgers, reconcile_connected-Ledgers,
  reconcile_room_update-Ledgers, reconcile_connected_accepts,
}
use jak3_ap.Tests.Sample.{platform, playing, playing-IsValid}

abbrev kanga_rats : ℕ
kanga_rats = 743001012

abbrev amulet : ℕ
amulet = 743001011

kanga_rats_observable : member kanga_rats observable_locations ≡ true
unfolding member observable_locations
kanga_rats_observable = refl

observe_local_location-Ledgers_example :
    (t : LocationTransition) × (observe_local_location platform playing kanga_rats ≡ ok t)
    × Ledgers platform t
        (λ n. member n playing.checked_location_bits || n == kanga_rats)
        (λ n. member n playing.server_confirmed_location_bits)
        (λ n.
          member n playing.pending_location_outbox
          || (n == kanga_rats && not (member n playing.server_confirmed_location_bits)))
observe_local_location-Ledgers_example =
    observe_local_location-Ledgers platform playing playing-IsValid kanga_rats kanga_rats_observable

known_amulet : Subset (amulet ∷ []) location_ids
unfolding member subset location_ids
known_amulet = subset_sound (amulet ∷ []) location_ids refl

reconcile_connected-Ledgers_example :
    (t : LocationTransition) × (reconcile_connected platform playing (amulet ∷ []) ≡ ok t)
    × Ledgers platform t
        (λ n. member n playing.checked_location_bits || member n (amulet ∷ []))
        (λ n. member n (amulet ∷ []))
        (λ n. member n playing.checked_location_bits && not (member n (amulet ∷ [])))
reconcile_connected-Ledgers_example =
    reconcile_connected-Ledgers platform playing playing-IsValid (amulet ∷ []) known_amulet

reconcile_room_update-Ledgers_example :
    (t : LocationTransition) × (reconcile_room_update platform playing (amulet ∷ []) ≡ ok t)
    × Ledgers platform t
        (λ n. member n playing.checked_location_bits || member n (amulet ∷ []))
        (λ n. member n playing.server_confirmed_location_bits || member n (amulet ∷ []))
        (λ n. member n playing.pending_location_outbox && not (member n (amulet ∷ [])))
reconcile_room_update-Ledgers_example =
    reconcile_room_update-Ledgers platform playing playing-IsValid (amulet ∷ []) known_amulet

reconcile_connected_accepts_example :
    ((t : LocationTransition) × (reconcile_connected platform playing (5 ∷ []) ≡ ok t))
    ↔ Subset (5 ∷ []) location_ids
reconcile_connected_accepts_example =
    reconcile_connected_accepts platform playing playing-IsValid (5 ∷ [])

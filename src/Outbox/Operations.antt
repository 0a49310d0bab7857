-- ===== src/Outbox/Operations.antt =====
-- The three public transitions of worlds/jak3/location_outbox.py, on a valid state.
use jak3_ap.Prelude.{
  ℕ, ◌≡◌, refl, sym, ◌∙◌, ◌↔◌, true, not, ◌&&◌, ◌||◌, List, [], ◌∷◌, ◌++◌, arith, ok, ◌==◌,
}
use jak3_ap.IdSet.{member, subset, Subset}
use jak3_ap.IdSet.Laws.{subset_sound, member-append, member-cons, member-nil}
use jak3_ap.Registry.{location_ids}
use jak3_ap.Persistence.State.{PersistentState}
use jak3_ap.Persistence.Identity.{Platform}
use jak3_ap.Outbox.{
  LocationTransition, observable_locations, transition, observe_local_location, reconcile_connected,
  reconcile_room_update,
}
use jak3_ap.Outbox.Transition.{
  IsValid, HasLedger, valid-ledger, Reconciles, transition-Reconciles, transition-known,
}

-- What a transition has done to the three sets of the ledger.
pub record Ledgers (p : Platform) (t : LocationTransition)
    (checked confirmed outbox : ℕ → jak3_ap.Prelude.Bool) : Type 0 where
  pub valid : IsValid p t.state
  pub checked_is : (n : ℕ) → member n t.state.checked_location_bits ≡ checked n
  pub confirmed_is : (n : ℕ) → member n t.state.server_confirmed_location_bits ≡ confirmed n
  pub outbox_is : (n : ℕ) → member n t.state.pending_location_outbox ≡ outbox n

observables_known : Subset observable_locations location_ids
unfolding observable_locations location_ids member subset
observables_known = subset_sound observable_locations location_ids refl

member_last : (n i : ℕ) (xs : List ℕ) → member n (xs ++ i ∷ []) ≡ (member n xs || n == i)
member_last n i xs = ground (arith, member-append n xs (i ∷ []), member-cons n i [], member-nil n)

observe-transition :
    (p : Platform) (s : PersistentState) (i : ℕ)
    → member i observable_locations ≡ true
    → observe_local_location p s i
      ≡ transition p s (s.checked_location_bits ++ i ∷ []) s.server_confirmed_location_bits
unfolding observe_local_location
observe-transition p s i h = rw h

connected-transition :
    (p : Platform) (s : PersistentState) (server : List ℕ)
    → transition p s (s.checked_location_bits ++ server) server ≡ reconcile_connected p s server
unfolding reconcile_connected
connected-transition p s server = refl

module _ (p : Platform) (s : PersistentState) (v : IsValid p s) where
  observe_local_location-Reconciles :
      (i : ℕ)
      → member i observable_locations ≡ true
      → (t : LocationTransition) × (observe_local_location p s i ≡ ok t)
        × Reconciles p s (s.checked_location_bits ++ i ∷ []) s.server_confirmed_location_bits t
  observe_local_location-Reconciles i h =
      let (t, e, r) =
        transition-Reconciles p s (s.checked_location_bits ++ i ∷ [])
          s.server_confirmed_location_bits v
          (λ n m. ground (arith, member_last n i s.checked_location_bits))
          (λ n m. ground (arith, member_last n i s.checked_location_bits, l.union n))
          (λ n m.
            ground
              (arith, member_last n i s.checked_location_bits, l.known n, observables_known i h)) in
      (t, observe-transition p s i h ∙ e, r)
    where
      l : HasLedger s
      l = valid-ledger p s v

  -- Observing an observable location returns. It adds that location to the checked ones, changes
  -- no confirmation, and puts it into the outbox unless the server has confirmed it.
  pub observe_local_location-Ledgers :
      (location_id : ℕ)
      → member location_id observable_locations ≡ true
      → (t : LocationTransition) × (observe_local_location p s location_id ≡ ok t)
        × Ledgers p t
            (λ n. member n s.checked_location_bits || n == location_id)
            (λ n. member n s.server_confirmed_location_bits)
            (λ n.
              member n s.pending_location_outbox
              || (n == location_id && not (member n s.server_confirmed_location_bits)))
  observe_local_location-Ledgers i h =
      let (t, e, r) = observe_local_location-Reconciles i h in
      (
        t,
        e,
        record {
          valid = r.valid;
          checked_is = λ n. r.checked_set n ∙ member_last n i s.checked_location_bits;
          confirmed_is = r.confirmed_set;
          outbox_is = λ n. ground (
            arith,
            r.pending_set n,
            member_last n i s.checked_location_bits,
            l.union n,
            l.disjoint n,
          );
        },
      )
    where
      l : HasLedger s
      l = valid-ledger p s v

  -- A Connected packet with known locations confirms exactly its own set, adds that set to the
  -- checked locations, and leaves the other checks in the outbox.
  pub reconcile_connected-Ledgers :
      (server : List ℕ)
      → Subset server location_ids
      → (t : LocationTransition) × (reconcile_connected p s server ≡ ok t)
        × Ledgers p t
            (λ n. member n s.checked_location_bits || member n server)
            (λ n. member n server)
            (λ n. member n s.checked_location_bits && not (member n server))
  reconcile_connected-Ledgers server k =
      let (t, e, r) =
        transition-Reconciles p s (s.checked_location_bits ++ server) server v
          (λ n m. ground (arith, member-append n s.checked_location_bits server))
          (λ n m. ground (arith, member-append n s.checked_location_bits server))
          (λ n m. ground (arith, member-append n s.checked_location_bits server, l.known n, k n)) in
      (
        t,
        sym (connected-transition p s server) ∙ e,
        record {
          valid = r.valid;
          checked_is = λ n. r.checked_set n ∙ member-append n s.checked_location_bits server;
          confirmed_is = r.confirmed_set;
          outbox_is =
              λ n. ground (arith, r.pending_set n, member-append n s.checked_location_bits server);
        },
      )
    where
      l : HasLedger s
      l = valid-ledger p s v

  -- A RoomUpdate with known locations confirms them beside what was confirmed, adds them to the
  -- checked locations, and takes them out of the outbox.
  pub reconcile_room_update-Ledgers :
      (ids : List ℕ)
      → Subset ids location_ids
      → (t : LocationTransition) × (reconcile_room_update p s ids ≡ ok t)
        × Ledgers p t
            (λ n. member n s.checked_location_bits || member n ids)
            (λ n. member n s.server_confirmed_location_bits || member n ids)
            (λ n. member n s.pending_location_outbox && not (member n ids))
  reconcile_room_update-Ledgers ids k =
      let (t, e, r) =
        transition-Reconciles p s
          (s.checked_location_bits ++ (s.server_confirmed_location_bits ++ ids))
          (s.server_confirmed_location_bits ++ ids) v (λ n m. ground (arith, all_sets n))
          (λ n m. ground (arith, all_sets n))
          (λ n m. ground (
            arith,
            all_sets n,
            member-append n s.server_confirmed_location_bits ids,
            l.union n,
            l.known n,
            k n,
          )) in
      (
        t,
        unfold reconcile_room_update in e,
        record {
          valid = r.valid;
          checked_is = λ n. ground (
            arith,
            r.checked_set n,
            all_sets n,
            member-append n s.server_confirmed_location_bits ids,
            l.union n,
          );
          confirmed_is =
              λ n. r.confirmed_set n ∙ member-append n s.server_confirmed_location_bits ids;
          outbox_is = λ n. ground (
            arith,
            r.pending_set n,
            all_sets n,
            member-append n s.server_confirmed_location_bits ids,
            l.union n,
            l.disjoint n,
          );
        },
      )
    where
      l : HasLedger s
      l = valid-ledger p s v

      all_sets :
          (n : ℕ)
          → member n (s.checked_location_bits ++ (s.server_confirmed_location_bits ++ ids)) ≡ (
              member n s.checked_location_bits
              || member n (s.server_confirmed_location_bits ++ ids))
      all_sets n = member-append n s.checked_location_bits (s.server_confirmed_location_bits ++ ids)

  -- A Connected packet is accepted exactly when all its locations are in the location table.
  pub reconcile_connected_accepts :
      (server : List ℕ)
      → ((t : LocationTransition) × (reconcile_connected p s server ≡ ok t))
        ↔ Subset server location_ids
  reconcile_connected_accepts server = (
    λ h n m.
        transition-known p s (s.checked_location_bits ++ server) server
          (connected-transition p s server ∙ h.1) n
          (ground (arith, member-append n s.checked_location_bits server)),
    λ k. let (t, e, r) = reconcile_connected-Ledgers server k in (t, e),
  )

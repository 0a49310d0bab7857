-- ===== src/Persistence/Locations/Ledger.antt =====
-- What the location checks of `validate_state` accept, as a specification on sets.
use jak3_ap.Prelude.{ℕ, ◌≡◌, ◌↔◌, true, false, ◌&&◌, ◌||◌, List, ◌++◌, arith, ok}
use jak3_ap.IdSet.{member, intersection, subset, is_empty, same_list, sorted_set, Subset, IsSorted}
use jak3_ap.IdSet.Laws.{
  member-append, member-intersection, subset_sound, subset_complete, is_empty_sound,
  is_empty_complete,
}
use jak3_ap.IdSet.Order.{IsSorted-test_sound, sorted_test_complete}
use jak3_ap.Registry.{location_ids}
use jak3_ap.Persistence.Locations.{validate_location_ids, validate_locations}

-- The three tuples are sorted sets of known locations, and the checked locations are the disjoint
-- union of the confirmed ones and the outbox.
pub record IsLedger (checked confirmed outbox : List ℕ) : Type 0 where
  pub checked_sorted : IsSorted checked
  pub confirmed_sorted : IsSorted confirmed
  pub outbox_sorted : IsSorted outbox
  pub known : Subset checked location_ids
  pub union : (n : ℕ) → member n checked ≡ (member n confirmed || member n outbox)
  pub disjoint : (n : ℕ) → (member n confirmed && member n outbox) ≡ false

-- the seven tests that `validate_locations` makes
record Tests (checked confirmed outbox : List ℕ) : Type 0 where
  checked_ok : validate_location_ids checked ≡ ok tt
  confirmed_ok : validate_location_ids confirmed ≡ ok tt
  outbox_ok : validate_location_ids outbox ≡ ok tt
  confirmed_in : subset confirmed checked ≡ true
  outbox_in : subset outbox checked ≡ true
  apart : is_empty (intersection confirmed outbox) ≡ true
  covered : subset checked (confirmed ++ outbox) ≡ true

Tests-of : (c f o : List ℕ) → validate_locations c f o ≡ ok tt → Tests c f o
unfolding validate_locations
Tests-of c f o h = ground arith

of_Tests :
    (c f o : List ℕ) → Tests c f o → subset (f ++ o) c ≡ true → validate_locations c f o ≡ ok tt
unfolding validate_locations
of_Tests c f o t h = ground arith

validate_location_ids_complete :
    (values : List ℕ)
    → IsSorted values
    → Subset values location_ids
    → validate_location_ids values ≡ ok tt
unfolding validate_location_ids
validate_location_ids_complete values h k =
    rw (sorted_test_complete values h, subset_complete values location_ids k)

ids_tests :
    (values : List ℕ)
    → validate_location_ids values ≡ ok tt
    → (same_list (sorted_set values) values ≡ true) × (subset values location_ids ≡ true)
unfolding validate_location_ids
ids_tests values h = ground arith

validate_location_ids_sound :
    (values : List ℕ)
    → validate_location_ids values ≡ ok tt
    → IsSorted values × Subset values location_ids
validate_location_ids_sound values h =
    let t = ids_tests values h in
    (IsSorted-test_sound values t.0, subset_sound values location_ids t.1)

IsLedger-of : (c f o : List ℕ) → Tests c f o → IsLedger c f o
IsLedger-of c f o t = record {
  checked_sorted = (validate_location_ids_sound c t.checked_ok).0;
  confirmed_sorted = (validate_location_ids_sound f t.confirmed_ok).0;
  outbox_sorted = (validate_location_ids_sound o t.outbox_ok).0;
  known = (validate_location_ids_sound c t.checked_ok).1;
  union = λ n. ground (
    arith,
    subset_sound c (f ++ o) t.covered n,
    subset_sound f c t.confirmed_in n,
    subset_sound o c t.outbox_in n,
    member-append n f o,
  );
  disjoint =
      λ n. ground (arith, is_empty_sound (intersection f o) t.apart n, member-intersection n f o);
}

module _ (c f o : List ℕ) (l : IsLedger c f o) where
  confirmed-Subset : Subset f c
  confirmed-Subset n m = ground (arith, l.union n)

  outbox-Subset : Subset o c
  outbox-Subset n m = ground (arith, l.union n)

  Tests-of_ledger : Tests c f o
  Tests-of_ledger = record {
    checked_ok = validate_location_ids_complete c l.checked_sorted l.known;
    confirmed_ok =
        validate_location_ids_complete f l.confirmed_sorted λ n m. l.known n (confirmed-Subset n m);
    outbox_ok =
        validate_location_ids_complete o l.outbox_sorted λ n m. l.known n (outbox-Subset n m);
    confirmed_in = subset_complete f c confirmed-Subset;
    outbox_in = subset_complete o c outbox-Subset;
    apart =
        is_empty_complete (intersection f o)
          λ n. ground (arith, l.disjoint n, member-intersection n f o);
    covered = subset_complete c (f ++ o) λ n m. ground (arith, l.union n, member-append n f o);
  }

  covers : subset (f ++ o) c ≡ true
  covers = subset_complete (f ++ o) c λ n m. ground (arith, l.union n, member-append n f o)

-- The location checks pass exactly on ledgers.
pub validate_locations_iff :
    (checked confirmed outbox : List ℕ)
    → (validate_locations checked confirmed outbox ≡ ok tt) ↔ IsLedger checked confirmed outbox
validate_locations_iff c f o = (
  λ h. IsLedger-of c f o (Tests-of c f o h),
  λ l. of_Tests c f o (Tests-of_ledger c f o l) (covers c f o l),
)

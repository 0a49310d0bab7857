-- ===== src/Outbox.antt =====
-- worlds/jak3/location_outbox.py: the transitions of the durable location ledger.
pub mod Transition
pub mod Operations
use jak3_ap.Prelude.{
  ℕ, Bool, not, ◌&&◌, List, [], ◌∷◌, ◌++◌, Result, ok, value_error, ◌>>=◌, ◌>>◌, require,
}
use jak3_ap.IdSet.{member, difference, subset, same_list, sorted_set}
use jak3_ap.Persistence.State.{PersistentState}
use jak3_ap.Persistence.Identity.{Platform}
use jak3_ap.Persistence.Validate.{post_init}

pub record LocationTransition : Type 0 where
  pub state : PersistentState
  pub changed : Bool
  pub checked_added : List ℕ
  pub confirmed_added : List ℕ
  pub confirmed_removed : List ℕ
  pub pending_added : List ℕ
  pub pending_removed : List ℕ

-- the keys of `LOCATION_TASK_IDS`
unfoldable pub observable_locations : List ℕ
observable_locations =
    743001010 ∷ 743001011 ∷ 743001012 ∷ 743001013 ∷ 743001014 ∷ 743001015 ∷ 743001016 ∷ 743020036
    ∷ []

-- the state with its three location tuples replaced
unfoldable pub with_locations : PersistentState → List ℕ → List ℕ → List ℕ → PersistentState
with_locations s checked confirmed outbox = record s {
  checked_location_bits = checked;
  server_confirmed_location_bits = confirmed;
  pending_location_outbox = outbox;
}

-- `replacement == state`: the two differ in the location tuples at most
unfoldable pub same_locations : PersistentState → PersistentState → Bool
same_locations a b =
    same_list a.checked_location_bits b.checked_location_bits
    && same_list a.server_confirmed_location_bits b.server_confirmed_location_bits
    && same_list a.pending_location_outbox b.pending_location_outbox

-- `_transition`
unfoldable pub transition : Platform → PersistentState → List ℕ → List ℕ → Result LocationTransition
transition p s checked confirmed = do
  let pending = difference checked confirmed
  require (subset s.checked_location_bits checked) value_error
  require (subset confirmed checked) value_error
  replacement ←
      post_init p
        (with_locations s (sorted_set checked) (sorted_set confirmed) (sorted_set pending))
  ok (record {
    state = replacement;
    changed = not (same_locations replacement s);
    checked_added = sorted_set (difference checked s.checked_location_bits);
    confirmed_added = sorted_set (difference confirmed s.server_confirmed_location_bits);
    confirmed_removed = sorted_set (difference s.server_confirmed_location_bits confirmed);
    pending_added = sorted_set (difference pending s.pending_location_outbox);
    pending_removed = sorted_set (difference s.pending_location_outbox pending);
  })

unfoldable pub observe_local_location : Platform → PersistentState → ℕ → Result LocationTransition
observe_local_location p s location_id = do
  require (member location_id observable_locations) value_error
  transition p s (s.checked_location_bits ++ location_id ∷ []) s.server_confirmed_location_bits

unfoldable pub reconcile_connected : Platform → PersistentState → List ℕ → Result LocationTransition
reconcile_connected p s server = transition p s (s.checked_location_bits ++ server) server

unfoldable pub reconcile_room_update :
    Platform → PersistentState → List ℕ → Result LocationTransition
reconcile_room_update p s checked_locations =
    let server = s.server_confirmed_location_bits ++ checked_locations in
    transition p s (s.checked_location_bits ++ server) server

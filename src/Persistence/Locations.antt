-- ===== src/Persistence/Locations.antt =====
-- The checks of `validate_state` (worlds/jak3/persistence.py) on the location ledger: the checked
-- locations are partitioned into those that the server confirmed and those in the outbox.
pub mod Ledger
use jak3_ap.Prelude.{ℕ, List, ◌++◌, Result, corruption, compatibility, ◌>>◌, require, ◌&&◌}
use jak3_ap.IdSet.{intersection, subset, is_empty, same_list, sorted_set}
use jak3_ap.Registry.{location_ids}

-- `_validate_sorted_unique_ints` with `allowed=_LOCATION_IDS`
unfoldable pub validate_location_ids : List ℕ → Result (Unit {0})
validate_location_ids values = do
  require (same_list (sorted_set values) values) corruption
  require (subset values location_ids) compatibility

unfoldable pub validate_locations : List ℕ → List ℕ → List ℕ → Result (Unit {0})
unfolding validate_location_ids
validate_locations checked confirmed outbox = do
  validate_location_ids checked
  validate_location_ids confirmed
  validate_location_ids outbox
  require (subset confirmed checked) corruption
  require (subset outbox checked) corruption
  require (is_empty (intersection confirmed outbox)) corruption
  require (subset checked (confirmed ++ outbox) && subset (confirmed ++ outbox) checked) corruption

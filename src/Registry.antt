-- ===== src/Registry.antt =====
-- worlds/jak3/registry.py: the frozen item, location and mission tables, and the ID sets that the
-- state validator and the packet validators read.
pub mod Records
pub mod Items
pub mod Story
pub mod Rewards
pub mod Sides
pub mod Orbs
pub mod Missions
use jak3_ap.Prelude.{ℕ, List, ◌++◌, map}
use Records.{LocationRecord}
use Items.{first_release_items}
use Story.{story_completion_locations}
use Rewards.{major_reward_locations}
use Sides.{selected_side_locations}
use Orbs.{orb_threshold_locations}

unfoldable pub first_release_locations : List LocationRecord
unfolding story_completion_locations major_reward_locations selected_side_locations
    orb_threshold_locations
first_release_locations =
    story_completion_locations ++ major_reward_locations ++ selected_side_locations
    ++ orb_threshold_locations

-- `frozenset(record.code for record in FIRST_RELEASE_ITEMS)`
unfoldable pub item_ids : List ℕ
unfolding first_release_items
item_ids = map (λ r. r.code) first_release_items

-- `frozenset(record.code for record in FIRST_RELEASE_LOCATIONS)`
unfoldable pub location_ids : List ℕ
unfolding first_release_locations
location_ids = map (λ r. r.code) first_release_locations

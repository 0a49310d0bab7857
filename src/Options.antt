-- ===== src/Options.antt =====
-- worlds/jak3/option_resolution.py: the options of a seed, resolved, and their validation. The
-- reading of Archipelago's option objects is left out.
pub mod Profile
use text.Mathlib.Text.{◌==◌ as str_eq}
use jak3_ap.Prelude.{
  ℕ, ℤ, pos, negsuc, same_int, leb, String, Bool, true, false, not, ◌&&◌, ◌||◌, List, [], ◌∷◌, ◌++◌,
  Result, require, ◌>>=◌, ◌>>◌, if◌then◌else◌, option,
}

pub record ResolvedJak3Options : Type 0 where
  pub progression_balancing : ℤ
  pub accessibility : String
  pub goal : String
  pub mission_order : String
  pub logic_difficulty : String
  pub mission_equipment : String
  pub story_item_mode : String
  pub finale_relic_requirement : ℤ
  pub early_route_item : String
  pub early_ranged_gun : String
  pub mission_completion_checks : String
  pub vanilla_reward_checks : String
  pub mission_milestone_checks : String
  pub side_mission_sanity : String
  pub sanity_costs : String
  pub challenge_progression : String
  pub medal_sanity : String
  pub precursor_orb_sanity : String
  pub precursor_orb_bundle_size : ℤ
  pub precursor_orb_progression_cap : ℤ
  pub skull_gem_sanity : String
  pub skull_gem_bundle_size : ℤ
  pub secret_purchase_sanity : String
  pub allow_experimental_checks : Bool
  pub gun_shuffle : String
  pub gun_logic : String
  pub ammo_upgrade_shuffle : Bool
  pub armor_shuffle : String
  pub jetboard_shuffle : Bool
  pub jetboard_upgrade_shuffle : Bool
  pub invisibility_statues_shuffle : Bool
  pub light_power_shuffle : String
  pub dark_power_shuffle : String
  pub vehicle_shuffle : String
  pub eco_crystal_shuffle : String
  pub secret_upgrade_shuffle : String
  pub filler_item_weights : List (String × ℤ)
  pub trap_percentage : ℤ
  pub trap_duration : ℤ
  pub trap_weights : List (String × ℤ)
  pub death_link : Bool

abbrev pub filler_defaults : List (String × ℤ)
filler_defaults =
    ("Precursor Orb Pack (5)", pos 20)
    ∷ ("Precursor Orb Pack (10)", pos 10)
    ∷ ("Precursor Orb Pack (25)", pos 4)
    ∷ ("Skull Gem Pack (1)", pos 12)
    ∷ ("Skull Gem Pack (3)", pos 6)
    ∷ ("Skull Gem Pack (5)", pos 2)
    ∷ ("Red Ammo Refill", pos 8)
    ∷ ("Yellow Ammo Refill", pos 8)
    ∷ ("Blue Ammo Refill", pos 8)
    ∷ ("Dark Ammo Refill", pos 4)
    ∷ ("Health Refill", pos 10)
    ∷ ("Light Eco Refill", pos 6)
    ∷ ("Dark Eco Refill", pos 6)
    ∷ ("Vehicle Repair", pos 6)
    ∷ ("Vehicle Turbo Refill", pos 4)
    ∷ []

abbrev pub trap_defaults : List (String × ℤ)
trap_defaults =
    ("Sandstorm Trap", pos 3)
    ∷ ("Low Gravity Trap", pos 2)
    ∷ ("Gun Jam Trap", pos 1)
    ∷ ("Eco Leak Trap", pos 1)
    ∷ ("Vehicle Wobble Trap", pos 1)
    ∷ []

abbrev pub supported_first_release_options : ResolvedJak3Options
supported_first_release_options = record {
  progression_balancing = pos 65;
  accessibility = "full";
  goal = "complete_city_win";
  mission_order = "tiered_open_board";
  logic_difficulty = "standard";
  mission_equipment = "bootstrap";
  story_item_mode = "simplified_authorizations";
  finale_relic_requirement = pos 5;
  early_route_item = "guaranteed_local";
  early_ranged_gun = "guaranteed_local";
  mission_completion_checks = "story";
  vanilla_reward_checks = "major";
  mission_milestone_checks = "off";
  side_mission_sanity = "selected";
  sanity_costs = "free";
  challenge_progression = "safe";
  medal_sanity = "off";
  precursor_orb_sanity = "global_bundles";
  precursor_orb_bundle_size = pos 25;
  precursor_orb_progression_cap = pos 300;
  skull_gem_sanity = "off";
  skull_gem_bundle_size = pos 25;
  secret_purchase_sanity = "off";
  allow_experimental_checks = false;
  gun_shuffle = "individual_mods";
  gun_logic = "reliable_ranged";
  ammo_upgrade_shuffle = true;
  armor_shuffle = "useful";
  jetboard_shuffle = true;
  jetboard_upgrade_shuffle = true;
  invisibility_statues_shuffle = true;
  light_power_shuffle = "all";
  dark_power_shuffle = "all";
  vehicle_shuffle = "progressive_licenses";
  eco_crystal_shuffle = "off";
  secret_upgrade_shuffle = "off";
  filler_item_weights = filler_defaults;
  trap_percentage = pos 0;
  trap_duration = pos 20;
  trap_weights = trap_defaults;
  death_link = false;
}

unfoldable pub same_bool : Bool → Bool → Bool
same_bool true b = b
same_bool false b = not b

unfoldable pub same_weights : List (String × ℤ) → List (String × ℤ) → Bool
same_weights [] [] = true
same_weights ((a, n) ∷ xs) ((b, m) ∷ ys) = (str_eq a b && same_int n m) && same_weights xs ys
same_weights _ _ = false

-- each field's name, and whether it has the supported value
unfoldable pub comparisons : ResolvedJak3Options → List (String × Bool)
unfolding same_bool same_weights
comparisons resolved =
    (
      "progression_balancing",
      same_int resolved.progression_balancing supported_first_release_options.progression_balancing,
    )
    ∷ ("accessibility", str_eq resolved.accessibility supported_first_release_options.accessibility)
    ∷ ("goal", str_eq resolved.goal supported_first_release_options.goal)
    ∷ ("mission_order", str_eq resolved.mission_order supported_first_release_options.mission_order)
    ∷ (
      "logic_difficulty",
      str_eq resolved.logic_difficulty supported_first_release_options.logic_difficulty,
    )
    ∷ (
      "mission_equipment",
      str_eq resolved.mission_equipment supported_first_release_options.mission_equipment,
    )
    ∷ (
      "story_item_mode",
      str_eq resolved.story_item_mode supported_first_release_options.story_item_mode,
    )
    ∷ (
      "finale_relic_requirement",
      same_int resolved.finale_relic_requirement
          supported_first_release_options.finale_relic_requirement,
    )
    ∷ (
      "early_route_item",
      str_eq resolved.early_route_item supported_first_release_options.early_route_item,
    )
    ∷ (
      "early_ranged_gun",
      str_eq resolved.early_ranged_gun supported_first_release_options.early_ranged_gun,
    )
    ∷ (
      "mission_completion_checks",
      str_eq resolved.mission_completion_checks
          supported_first_release_options.mission_completion_checks,
    )
    ∷ (
      "vanilla_reward_checks",
      str_eq resolved.vanilla_reward_checks supported_first_release_options.vanilla_reward_checks,
    )
    ∷ (
      "mission_milestone_checks",
      str_eq resolved.mission_milestone_checks
          supported_first_release_options.mission_milestone_checks,
    )
    ∷ (
      "side_mission_sanity",
      str_eq resolved.side_mission_sanity supported_first_release_options.side_mission_sanity,
    )
    ∷ ("sanity_costs", str_eq resolved.sanity_costs supported_first_release_options.sanity_costs)
    ∷ (
      "challenge_progression",
      str_eq resolved.challenge_progression supported_first_release_options.challenge_progression,
    )
    ∷ ("medal_sanity", str_eq resolved.medal_sanity supported_first_release_options.medal_sanity)
    ∷ (
      "precursor_orb_sanity",
      str_eq resolved.precursor_orb_sanity supported_first_release_options.precursor_orb_sanity,
    )
    ∷ (
      "precursor_orb_bundle_size",
      same_int resolved.precursor_orb_bundle_size
          supported_first_release_options.precursor_orb_bundle_size,
    )
    ∷ (
      "precursor_orb_progression_cap",
      same_int resolved.precursor_orb_progression_cap
          supported_first_release_options.precursor_orb_progression_cap,
    )
    ∷ (
      "skull_gem_sanity",
      str_eq resolved.skull_gem_sanity supported_first_release_options.skull_gem_sanity,
    )
    ∷ (
      "skull_gem_bundle_size",
      same_int resolved.skull_gem_bundle_size supported_first_release_options.skull_gem_bundle_size,
    )
    ∷ (
      "secret_purchase_sanity",
      str_eq resolved.secret_purchase_sanity supported_first_release_options.secret_purchase_sanity,
    )
    ∷ (
      "allow_experimental_checks",
      same_bool resolved.allow_experimental_checks
          supported_first_release_options.allow_experimental_checks,
    )
    ∷ ("gun_shuffle", str_eq resolved.gun_shuffle supported_first_release_options.gun_shuffle)
    ∷ ("gun_logic", str_eq resolved.gun_logic supported_first_release_options.gun_logic)
    ∷ (
      "ammo_upgrade_shuffle",
      same_bool resolved.ammo_upgrade_shuffle supported_first_release_options.ammo_upgrade_shuffle,
    )
    ∷ ("armor_shuffle", str_eq resolved.armor_shuffle supported_first_release_options.armor_shuffle)
    ∷ (
      "jetboard_shuffle",
      same_bool resolved.jetboard_shuffle supported_first_release_options.jetboard_shuffle,
    )
    ∷ (
      "jetboard_upgrade_shuffle",
      same_bool resolved.jetboard_upgrade_shuffle
          supported_first_release_options.jetboard_upgrade_shuffle,
    )
    ∷ (
      "invisibility_statues_shuffle",
      same_bool resolved.invisibility_statues_shuffle
          supported_first_release_options.invisibility_statues_shuffle,
    )
    ∷ (
      "light_power_shuffle",
      str_eq resolved.light_power_shuffle supported_first_release_options.light_power_shuffle,
    )
    ∷ (
      "dark_power_shuffle",
      str_eq resolved.dark_power_shuffle supported_first_release_options.dark_power_shuffle,
    )
    ∷ (
      "vehicle_shuffle",
      str_eq resolved.vehicle_shuffle supported_first_release_options.vehicle_shuffle,
    )
    ∷ (
      "eco_crystal_shuffle",
      str_eq resolved.eco_crystal_shuffle supported_first_release_options.eco_crystal_shuffle,
    )
    ∷ (
      "secret_upgrade_shuffle",
      str_eq resolved.secret_upgrade_shuffle supported_first_release_options.secret_upgrade_shuffle,
    )
    ∷ (
      "filler_item_weights",
      same_weights resolved.filler_item_weights supported_first_release_options.filler_item_weights,
    )
    ∷ (
      "trap_percentage",
      same_int resolved.trap_percentage supported_first_release_options.trap_percentage,
    )
    ∷ (
      "trap_duration",
      same_int resolved.trap_duration supported_first_release_options.trap_duration,
    )
    ∷ (
      "trap_weights",
      same_weights resolved.trap_weights supported_first_release_options.trap_weights,
    )
    ∷ ("death_link", same_bool resolved.death_link supported_first_release_options.death_link)
    ∷ []

unfoldable pub changed_names : List (String × Bool) → List String
changed_names [] = []
changed_names ((name, same) ∷ rows) =
    let rest = changed_names rows in if same then rest else name ∷ rest

unfoldable pub no_names : List String → Bool
no_names [] = true
no_names (name ∷ names) = false

-- `low <= value <= high`, for `low` 0
unfoldable pub up_to : ℕ → ℤ → Bool
up_to high (pos n) = leb n high
up_to high (negsuc n) = false

one_of : String → String → String → Bool
one_of text a b = str_eq text a || str_eq text b

name_if : Bool → String → List String
name_if true name = name ∷ []
name_if false name = []

unfoldable pub experimental_collectibles : ResolvedJak3Options → List String
unfolding one_of name_if
experimental_collectibles resolved =
    name_if (one_of resolved.side_mission_sanity "orb_hunts" "all") "side_mission_sanity"
    ++ name_if (one_of resolved.precursor_orb_sanity "regional_bundles" "individual_static")
        "precursor_orb_sanity"
    ++ name_if (str_eq resolved.skull_gem_sanity "individual_static") "skull_gem_sanity"

unfoldable pub validate_options : ResolvedJak3Options → Result (Unit {0})
unfolding up_to experimental_collectibles comparisons changed_names no_names
validate_options resolved = do
  require (up_to 7 resolved.finale_relic_requirement) option
  require (up_to 600 resolved.precursor_orb_progression_cap) option
  require (not (str_eq resolved.story_item_mode "canonical")) option
  require (no_names (experimental_collectibles resolved) || resolved.allow_experimental_checks)
      option
  require (not resolved.allow_experimental_checks) option
  require (no_names (changed_names (comparisons resolved))) option

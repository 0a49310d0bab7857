-- ===== src/Options/Profile.antt =====
-- Only the supported profile passes the validation.
use text.Mathlib.TextEquality.{eq_iff}
use text.Mathlib.Text.{◌==◌ as str_eq}
use jak3_ap.Prelude.{
  ◌≡◌, ◌↔◌, refl, sym, subst, ℤ, same_int, String, Bool, true, false, List, [], ◌∷◌, All, ok, arith,
}
use jak3_ap.Options.{
  ResolvedJak3Options, supported_first_release_options, same_bool, same_weights, comparisons,
  changed_names, no_names, up_to, experimental_collectibles, validate_options,
}

str_eq_sound : (a b : String) → str_eq a b ≡ true → a ≡ b
str_eq_sound a b = (eq_iff a b).0

same_int_sound : (a b : ℤ) → same_int a b ≡ true → a ≡ b
same_int_sound a b h = ground arith

same_bool_sound : (a b : Bool) → same_bool a b ≡ true → a ≡ b
unfolding same_bool
same_bool_sound a b h = ground arith

same_weights_sound : (xs ys : List (String × ℤ)) → same_weights xs ys ≡ true → xs ≡ ys
unfolding same_weights
same_weights_sound [] [] h = refl
same_weights_sound [] (y ∷ ys) h = cc
same_weights_sound (x ∷ xs) [] h = cc
same_weights_sound ((a, n) ∷ xs) ((b, m) ∷ ys) h =
    ground (arith, str_eq_sound a b, same_weights_sound xs ys)

rows_lem :
    (rows : List (String × Bool))
    → no_names (changed_names rows) ≡ true
    → All (λ row. row.1 ≡ true) rows
unfolding changed_names no_names
rows_lem [] h = tt
rows_lem ((name, true) ∷ rows) h = (refl, rows_lem rows h)
rows_lem ((name, false) ∷ rows) h = cc

supported_lem :
    (resolved : ResolvedJak3Options)
    → All (λ row. row.1 ≡ true) (comparisons resolved)
    → resolved ≡ supported_first_release_options
unfolding comparisons
supported_lem resolved h i = record {
  progression_balancing =
      same_int_sound resolved.progression_balancing
        supported_first_release_options.progression_balancing h.0 i;
  accessibility =
      str_eq_sound resolved.accessibility supported_first_release_options.accessibility h.1.0 i;
  goal = str_eq_sound resolved.goal supported_first_release_options.goal h.1.1.0 i;
  mission_order =
      str_eq_sound resolved.mission_order supported_first_release_options.mission_order h.1.1.1.0 i;
  logic_difficulty =
      str_eq_sound resolved.logic_difficulty supported_first_release_options.logic_difficulty
        h.1.1.1.1.0 i;
  mission_equipment =
      str_eq_sound resolved.mission_equipment supported_first_release_options.mission_equipment
        h.1.1.1.1.1.0 i;
  story_item_mode =
      str_eq_sound resolved.story_item_mode supported_first_release_options.story_item_mode
        h.1.1.1.1.1.1.0 i;
  finale_relic_requirement =
      same_int_sound resolved.finale_relic_requirement
        supported_first_release_options.finale_relic_requirement h.1.1.1.1.1.1.1.0 i;
  early_route_item =
      str_eq_sound resolved.early_route_item supported_first_release_options.early_route_item
        h.1.1.1.1.1.1.1.1.0 i;
  early_ranged_gun =
      str_eq_sound resolved.early_ranged_gun supported_first_release_options.early_ranged_gun
        h.1.1.1.1.1.1.1.1.1.0 i;
  mission_completion_checks =
      str_eq_sound resolved.mission_completion_checks
        supported_first_release_options.mission_completion_checks h.1.1.1.1.1.1.1.1.1.1.0 i;
  vanilla_reward_checks =
      str_eq_sound resolved.vanilla_reward_checks
        supported_first_release_options.vanilla_reward_checks h.1.1.1.1.1.1.1.1.1.1.1.0 i;
  mission_milestone_checks =
      str_eq_sound resolved.mission_milestone_checks
        supported_first_release_options.mission_milestone_checks h.1.1.1.1.1.1.1.1.1.1.1.1.0 i;
  side_mission_sanity =
      str_eq_sound resolved.side_mission_sanity supported_first_release_options.side_mission_sanity
        h.1.1.1.1.1.1.1.1.1.1.1.1.1.0 i;
  sanity_costs =
      str_eq_sound resolved.sanity_costs supported_first_release_options.sanity_costs
        h.1.1.1.1.1.1.1.1.1.1.1.1.1.1.0 i;
  challenge_progression =
      str_eq_sound resolved.challenge_progression
        supported_first_release_options.challenge_progression h.1.1.1.1.1.1.1.1.1.1.1.1.1.1.1.0 i;
  medal_sanity =
      str_eq_sound resolved.medal_sanity supported_first_release_options.medal_sanity
        h.1.1.1.1.1.1.1.1.1.1.1.1.1.1.1.1.0 i;
  precursor_orb_sanity =
      str_eq_sound resolved.precursor_orb_sanity
        supported_first_release_options.precursor_orb_sanity h.1.1.1.1.1.1.1.1.1.1.1.1.1.1.1.1.1.0
        i;
  precursor_orb_bundle_size =
      same_int_sound resolved.precursor_orb_bundle_size
        supported_first_release_options.precursor_orb_bundle_size
        h.1.1.1.1.1.1.1.1.1.1.1.1.1.1.1.1.1.1.0 i;
  precursor_orb_progression_cap =
      same_int_sound resolved.precursor_orb_progression_cap
        supported_first_release_options.precursor_orb_progression_cap
        h.1.1.1.1.1.1.1.1.1.1.1.1.1.1.1.1.1.1.1.0 i;
  skull_gem_sanity =
      str_eq_sound resolved.skull_gem_sanity supported_first_release_options.skull_gem_sanity
        h.1.1.1.1.1.1.1.1.1.1.1.1.1.1.1.1.1.1.1.1.0 i;
  skull_gem_bundle_size =
      same_int_sound resolved.skull_gem_bundle_size
        supported_first_release_options.skull_gem_bundle_size
        h.1.1.1.1.1.1.1.1.1.1.1.1.1.1.1.1.1.1.1.1.1.0 i;
  secret_purchase_sanity =
      str_eq_sound resolved.secret_purchase_sanity
        supported_first_release_options.secret_purchase_sanity
        h.1.1.1.1.1.1.1.1.1.1.1.1.1.1.1.1.1.1.1.1.1.1.0 i;
  allow_experimental_checks =
      same_bool_sound resolved.allow_experimental_checks
        supported_first_release_options.allow_experimental_checks
        h.1.1.1.1.1.1.1.1.1.1.1.1.1.1.1.1.1.1.1.1.1.1.1.0 i;
  gun_shuffle =
      str_eq_sound resolved.gun_shuffle supported_first_release_options.gun_shuffle
        h.1.1.1.1.1.1.1.1.1.1.1.1.1.1.1.1.1.1.1.1.1.1.1.1.0 i;
  gun_logic =
      str_eq_sound resolved.gun_logic supported_first_release_options.gun_logic
        h.1.1.1.1.1.1.1.1.1.1.1.1.1.1.1.1.1.1.1.1.1.1.1.1.1.0 i;
  ammo_upgrade_shuffle =
      same_bool_sound resolved.ammo_upgrade_shuffle
        supported_first_release_options.ammo_upgrade_shuffle
        h.1.1.1.1.1.1.1.1.1.1.1.1.1.1.1.1.1.1.1.1.1.1.1.1.1.1.0 i;
  armor_shuffle =
      str_eq_sound resolved.armor_shuffle supported_first_release_options.armor_shuffle
        h.1.1.1.1.1.1.1.1.1.1.1.1.1.1.1.1.1.1.1.1.1.1.1.1.1.1.1.0 i;
  jetboard_shuffle =
      same_bool_sound resolved.jetboard_shuffle supported_first_release_options.jetboard_shuffle
        h.1.1.1.1.1.1.1.1.1.1.1.1.1.1.1.1.1.1.1.1.1.1.1.1.1.1.1.1.0 i;
  jetboard_upgrade_shuffle =
      same_bool_sound resolved.jetboard_upgrade_shuffle
        supported_first_release_options.jetboard_upgrade_shuffle
        h.1.1.1.1.1.1.1.1.1.1.1.1.1.1.1.1.1.1.1.1.1.1.1.1.1.1.1.1.1.0 i;
  invisibility_statues_shuffle =
      same_bool_sound resolved.invisibility_statues_shuffle
        supported_first_release_options.invisibility_statues_shuffle
        h.1.1.1.1.1.1.1.1.1.1.1.1.1.1.1.1.1.1.1.1.1.1.1.1.1.1.1.1.1.1.0 i;
  light_power_shuffle =
      str_eq_sound resolved.light_power_shuffle supported_first_release_options.light_power_shuffle
        h.1.1.1.1.1.1.1.1.1.1.1.1.1.1.1.1.1.1.1.1.1.1.1.1.1.1.1.1.1.1.1.0 i;
  dark_power_shuffle =
      str_eq_sound resolved.dark_power_shuffle supported_first_release_options.dark_power_shuffle
        h.1.1.1.1.1.1.1.1.1.1.1.1.1.1.1.1.1.1.1.1.1.1.1.1.1.1.1.1.1.1.1.1.0 i;
  vehicle_shuffle =
      str_eq_sound resolved.vehicle_shuffle supported_first_release_options.vehicle_shuffle
        h.1.1.1.1.1.1.1.1.1.1.1.1.1.1.1.1.1.1.1.1.1.1.1.1.1.1.1.1.1.1.1.1.1.0 i;
  eco_crystal_shuffle =
      str_eq_sound resolved.eco_crystal_shuffle supported_first_release_options.eco_crystal_shuffle
        h.1.1.1.1.1.1.1.1.1.1.1.1.1.1.1.1.1.1.1.1.1.1.1.1.1.1.1.1.1.1.1.1.1.1.0 i;
  secret_upgrade_shuffle =
      str_eq_sound resolved.secret_upgrade_shuffle
        supported_first_release_options.secret_upgrade_shuffle
        h.1.1.1.1.1.1.1.1.1.1.1.1.1.1.1.1.1.1.1.1.1.1.1.1.1.1.1.1.1.1.1.1.1.1.1.0 i;
  filler_item_weights =
      same_weights_sound resolved.filler_item_weights
        supported_first_release_options.filler_item_weights
        h.1.1.1.1.1.1.1.1.1.1.1.1.1.1.1.1.1.1.1.1.1.1.1.1.1.1.1.1.1.1.1.1.1.1.1.1.0 i;
  trap_percentage =
      same_int_sound resolved.trap_percentage supported_first_release_options.trap_percentage
        h.1.1.1.1.1.1.1.1.1.1.1.1.1.1.1.1.1.1.1.1.1.1.1.1.1.1.1.1.1.1.1.1.1.1.1.1.1.0 i;
  trap_duration =
      same_int_sound resolved.trap_duration supported_first_release_options.trap_duration
        h.1.1.1.1.1.1.1.1.1.1.1.1.1.1.1.1.1.1.1.1.1.1.1.1.1.1.1.1.1.1.1.1.1.1.1.1.1.1.0 i;
  trap_weights =
      same_weights_sound resolved.trap_weights supported_first_release_options.trap_weights
        h.1.1.1.1.1.1.1.1.1.1.1.1.1.1.1.1.1.1.1.1.1.1.1.1.1.1.1.1.1.1.1.1.1.1.1.1.1.1.1.0 i;
  death_link =
      same_bool_sound resolved.death_link supported_first_release_options.death_link
        h.1.1.1.1.1.1.1.1.1.1.1.1.1.1.1.1.1.1.1.1.1.1.1.1.1.1.1.1.1.1.1.1.1.1.1.1.1.1.1.1.0 i;
}

supported_passes : validate_options supported_first_release_options ≡ ok tt
unfolding validate_options up_to experimental_collectibles comparisons changed_names no_names
    same_bool same_weights
supported_passes = refl

passed_lem :
    (resolved : ResolvedJak3Options)
    → validate_options resolved ≡ ok tt
    → no_names (changed_names (comparisons resolved)) ≡ true
unfolding validate_options
passed_lem resolved h = ground arith

-- The validation accepts the documented first-release profile, in every field, and nothing else.
pub validate_options_iff :
    (resolved : ResolvedJak3Options)
    → (validate_options resolved ≡ ok tt) ↔ (resolved ≡ supported_first_release_options)
validate_options_iff resolved = (
  λ h. supported_lem resolved (rows_lem (comparisons resolved) (passed_lem resolved h)),
  λ e. subst (λ r. validate_options r ≡ ok tt) (sym e) supported_passes,
)

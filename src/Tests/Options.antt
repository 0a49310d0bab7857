-- ===== src/Tests/Options.antt =====
-- A resolved profile that is not supported.
use jak3_ap.Prelude.{◌≡◌, ◌↔◌, ok}
use jak3_ap.Options.{ResolvedJak3Options, supported_first_release_options, validate_options}
use jak3_ap.Options.Profile.{validate_options_iff}

abbrev boss_options : ResolvedJak3Options
boss_options = record supported_first_release_options { goal = "defeat_final_boss" }

validate_options_iff_example :
    (validate_options boss_options ≡ ok tt) ↔ (boss_options ≡ supported_first_release_options)
validate_options_iff_example = validate_options_iff boss_options

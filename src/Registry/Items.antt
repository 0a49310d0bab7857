-- ===== src/Registry/Items.antt =====
-- The item tables of worlds/jak3/registry.py.
use jak3_ap.Prelude.{List, [], ◌∷◌, ◌++◌}
use jak3_ap.Registry.Records.{ItemRecord, item}

unfoldable pub progression_items : List ItemRecord
progression_items =
    item "Spargus Field Orders" 743010000 "progression" "route_authorization" 1
    ∷ item "Temple Expedition Orders" 743010001 "progression" "route_authorization" 1
    ∷ item "Haven City Access" 743010002 "progression" "route_authorization" 1
    ∷ item "Freedom League Orders" 743010003 "progression" "route_authorization" 1
    ∷ item "Wasteland Artifact Intel" 743010004 "progression" "route_authorization" 1
    ∷ item "War Factory Coordinates" 743010005 "progression" "route_authorization" 1
    ∷ item "Precursor Network Access" 743010006 "progression" "route_authorization" 1
    ∷ item "Dark Maker Targeting Data" 743010007 "progression" "route_authorization" 1
    ∷ item "Jetboard" 743000108 "progression" "capability" 1
    ∷ item "Jetboard Launch" 743010008 "progression" "capability" 1
    ∷ item "Invisibility Statues" 743010009 "progression" "capability" 1
    ∷ item "Dark Bomb" 743010010 "progression" "capability" 1
    ∷ item "Dark Strike" 743010011 "progression" "capability" 1
    ∷ item "Light Flight" 743010012 "progression" "capability" 1
    ∷ item "Progressive Wasteland Vehicle License" 743010013 "progression" "vehicle_license" 3
    ∷ item "Blaster" 743010014 "progression_skip_balancing" "morph_gun" 1
    ∷ item "Vulcan Fury" 743010015 "progression_skip_balancing" "morph_gun" 1
    ∷ item "Seal of Mar" 743010016 "progression_skip_balancing" "finale_relic" 1
    ∷ item "Cipher Glyph" 743010017 "progression_skip_balancing" "finale_relic" 1
    ∷ item "Holo Cube" 743010018 "progression_skip_balancing" "finale_relic" 1
    ∷ item "Quantum Reflector" 743010019 "progression_skip_balancing" "finale_relic" 1
    ∷ item "Beam Generator" 743010020 "progression_skip_balancing" "finale_relic" 1
    ∷ item "Precursor Prism" 743010021 "progression_skip_balancing" "finale_relic" 1
    ∷ item "Time Map" 743010022 "progression_skip_balancing" "finale_relic" 1
    ∷ []

unfoldable pub useful_items : List ItemRecord
useful_items =
    item "Scatter Gun" 743010100 "useful" "morph_gun" 1
    ∷ item "Wave Concussor" 743010101 "useful" "morph_gun" 1
    ∷ item "Plasmite RPG" 743010102 "useful" "morph_gun" 1
    ∷ item "Beam Reflexor" 743010103 "useful" "morph_gun" 1
    ∷ item "Gyro Burster" 743010104 "useful" "morph_gun" 1
    ∷ item "Arc Wielder" 743010105 "useful" "morph_gun" 1
    ∷ item "Needle Lazer" 743010106 "useful" "morph_gun" 1
    ∷ item "Peace Maker" 743010107 "useful" "morph_gun" 1
    ∷ item "Mass Imploder" 743010108 "useful" "morph_gun" 1
    ∷ item "Super Nova" 743010109 "useful" "morph_gun" 1
    ∷ item "Progressive Red Ammo Capacity" 743000104 "useful" "ammo_capacity" 2
    ∷ item "Progressive Yellow Ammo Capacity" 743000105 "useful" "ammo_capacity" 2
    ∷ item "Progressive Blue Ammo Capacity" 743000106 "useful" "ammo_capacity" 2
    ∷ item "Progressive Dark Ammo Capacity" 743000107 "useful" "ammo_capacity" 2
    ∷ item "Progressive Armor" 743000116 "useful" "armor" 4
    ∷ item "Jetboard Zap" 743010110 "useful" "jetboard" 1
    ∷ item "Light Regeneration" 743010111 "useful" "light_power" 1
    ∷ item "Flash Freeze" 743010112 "useful" "light_power" 1
    ∷ item "Light Shield" 743010113 "useful" "light_power" 1
    ∷ item "Dark Blast" 743010114 "useful" "dark_power" 1
    ∷ item "Ram 'Rod / Slam Dozer" 743000113 "useful" "vehicle" 1
    ∷ []

unfoldable pub filler_items : List ItemRecord
filler_items =
    item "Precursor Orb Pack (5)" 743012000 "filler" "currency" 0
    ∷ item "Precursor Orb Pack (10)" 743012001 "filler" "currency" 0
    ∷ item "Precursor Orb Pack (25)" 743012002 "filler" "currency" 0
    ∷ item "Skull Gem Pack (1)" 743012003 "filler" "currency" 0
    ∷ item "Skull Gem Pack (3)" 743012004 "filler" "currency" 0
    ∷ item "Skull Gem Pack (5)" 743012005 "filler" "currency" 0
    ∷ item "Red Ammo Refill" 743012006 "filler" "consumable" 0
    ∷ item "Yellow Ammo Refill" 743012007 "filler" "consumable" 0
    ∷ item "Blue Ammo Refill" 743012008 "filler" "consumable" 0
    ∷ item "Dark Ammo Refill" 743012009 "filler" "consumable" 0
    ∷ item "Health Refill" 743012010 "filler" "consumable" 0
    ∷ item "Light Eco Refill" 743012011 "filler" "consumable" 0
    ∷ item "Dark Eco Refill" 743012012 "filler" "consumable" 0
    ∷ item "Vehicle Repair" 743012013 "filler" "consumable" 0
    ∷ item "Vehicle Turbo Refill" 743012014 "filler" "consumable" 0
    ∷ []

unfoldable pub trap_items : List ItemRecord
trap_items =
    item "Sandstorm Trap" 743013000 "trap" "future_trap" 0
    ∷ item "Low Gravity Trap" 743013001 "trap" "future_trap" 0
    ∷ item "Gun Jam Trap" 743013002 "trap" "future_trap" 0
    ∷ item "Eco Leak Trap" 743013003 "trap" "future_trap" 0
    ∷ item "Vehicle Wobble Trap" 743013004 "trap" "future_trap" 0
    ∷ []

unfoldable pub first_release_items : List ItemRecord
unfolding progression_items useful_items filler_items trap_items
first_release_items = progression_items ++ useful_items ++ filler_items ++ trap_items

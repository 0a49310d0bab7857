-- ===== src/Registry/Rewards.antt =====
-- The major-reward locations of worlds/jak3/registry.py.
use jak3_ap.Prelude.{false, none, some, List, [], ◌∷◌}
use jak3_ap.Registry.Records.{LocationRecord, location}

unfoldable pub major_reward_locations : List LocationRecord
major_reward_locations =
    location "Reward: Scatter Gun Introduction" 743020010 "major_reward" (some 11) (some 10) none
      false
    ∷ location "Reward: Dark Bomb and Dark Blast Lesson" 743020011 "major_reward" (some 11)
        (some 11) none false
    ∷ location "Reward: First War Amulet and Blaster" 743020012 "major_reward" (some 11) (some 12)
        none false
    ∷ location "Reward: Tough Puppy Introduction" 743020023 "major_reward" (some 14) (some 23) none
        false
    ∷ location "Reward: First Armor Upgrade" 743020036 "major_reward" (some 16) (some 36) none false
    ∷ location "Reward: Sand Shark Introduction" 743020039 "major_reward" (some 18) (some 39) none
        false
    ∷ location "Reward: Wave Concussor and Red Ammo Upgrade" 743020041 "major_reward" (some 19)
        (some 41) none false
    ∷ location "Reward: Second War Amulet and Beam Reflexor" 743020044 "major_reward" (some 19)
        (some 44) none false
    ∷ location "Reward: Dune Hopper" 743020048 "major_reward" (some 20) (some 48) none false
    ∷ location "Reward: Vulcan Fury Introduction" 743020063 "major_reward" (some 23) (some 63) none
        false
    ∷ location "Reward: Gila Stomper Introduction" 743020067 "major_reward" (some 24) (some 67) none
        false
    ∷ location "Reward: Invisibility Statues" 743020084 "major_reward" (some 27) (some 84) none
        false
    ∷ location "Reward: Light Regeneration Lesson" 743020093 "major_reward" (some 28) (some 93) none
        false
    ∷ location "Reward: Jetboard and Seal of Mar" 743020098 "major_reward" (some 29) (some 98) none
        false
    ∷ location "Reward: Flash Freeze Lesson" 743020102 "major_reward" (some 30) (some 102) none
        false
    ∷ location "Reward: Light Shield" 743020109 "major_reward" (some 31) (some 109) none false
    ∷ location "Reward: Second Armor Upgrade" 743020113 "major_reward" (some 32) (some 113) none
        false
    ∷ location "Reward: Arc Wielder and Blue Ammo Upgrade" 743020119 "major_reward" (some 34)
        (some 119) none false
    ∷ location "Reward: Port-Industrial Pass" 743020129 "major_reward" (some 38) (some 129) none
        false
    ∷ location "Reward: Gyro Burster and Yellow Ammo Upgrade" 743020132 "major_reward" (some 39)
        (some 132) none false
    ∷ location "Reward: Dark Strike Lesson" 743020145 "major_reward" (some 42) (some 145) none false
    ∷ location "Reward: Port-Metal Head Pass" 743020146 "major_reward" (some 42) (some 146) none
        false
    ∷ location "Reward: Third Armor Upgrade" 743020149 "major_reward" (some 43) (some 149) none
        false
    ∷ location "Reward: Needle Lazer and Industrial Pass" 743020152 "major_reward" (some 44)
        (some 152) none false
    ∷ location "Reward: Plasmite RPG and Red Ammo Upgrade" 743020162 "major_reward" (some 47)
        (some 162) none false
    ∷ location "Reward: Peace Maker and Slums Pass" 743020167 "major_reward" (some 48) (some 167)
        none false
    ∷ location "Reward: Cipher Glyph" 743020175 "major_reward" (some 51) (some 175) none false
    ∷ location "Reward: Holo Cube" 743020182 "major_reward" (some 52) (some 182) none false
    ∷ location "Reward: Quantum Reflector" 743020191 "major_reward" (some 54) (some 191) none false
    ∷ location "Reward: Beam Generator" 743020195 "major_reward" (some 55) (some 195) none false
    ∷ location "Reward: Precursor Prism" 743020200 "major_reward" (some 56) (some 200) none false
    ∷ location "Reward: Mass Imploder and Dark Ammo Upgrade" 743020232 "major_reward" (some 61)
        (some 232) none false
    ∷ location "Reward: Light Flight Lesson" 743020238 "major_reward" (some 61) (some 238) none
        false
    ∷ location "Reward: Time Map" 743020240 "major_reward" (some 61) (some 240) none false
    ∷ location "Reward: Third War Amulet and Fourth Armor Upgrade" 743020243 "major_reward"
        (some 62) (some 243) none false
    ∷ location "Reward: Super Nova and Dark Ammo Upgrade" 743020252 "major_reward" (some 65)
        (some 252) none false
    ∷ location "Reward: Slums-Generator Pass" 743020256 "major_reward" (some 67) (some 256) none
        false
    ∷ location "Reward: Ram 'Rod / Slam Dozer" 743020259 "major_reward" (some 68) (some 259) none
        false
    ∷ []

-- ===== src/Registry/Story.antt =====
-- The story-completion locations of worlds/jak3/registry.py.
use jak3_ap.Prelude.{false, none, some, List, [], ◌∷◌}
use jak3_ap.Registry.Records.{LocationRecord, location}

unfoldable pub story_completion_locations : List LocationRecord
story_completion_locations =
    location "Complete Mission: Complete Arena Training" 743001010 "story_completion" (some 10) none
      none false
    ∷ location "Complete Mission: Earn 1st War Amulet" 743001011 "story_completion" (some 11) none
        none false
    ∷ location "Complete Mission: Catch Kanga-Rats" 743001012 "story_completion" (some 12) none none
        false
    ∷ location "Complete Mission: Unlock Satellite" 743001013 "story_completion" (some 13) none none
        false
    ∷ location "Complete Mission: Learn to Drive a Vehicle" 743001014 "story_completion" (some 14)
        none none false
    ∷ location "Complete Mission: Beat Kleiver in Desert Race" 743001015 "story_completion"
        (some 15) none none false
    ∷ location "Complete Mission: Race for Artifacts" 743001016 "story_completion" (some 16) none
        none false
    ∷ location "Complete Mission: Beat Monks in Leaper Race" 743001017 "story_completion" (some 17)
        none none false
    ∷ location "Complete Mission: Destroy Metal Head Beasts" 743001018 "story_completion" (some 18)
        none none false
    ∷ location "Complete Mission: Earn 2nd War Amulet" 743001019 "story_completion" (some 19) none
        none false
    ∷ location "Complete Mission: Corral Wild Leapers" 743001020 "story_completion" (some 20) none
        none false
    ∷ location "Complete Mission: Rescue Wastelanders" 743001021 "story_completion" (some 21) none
        none false
    ∷ location "Complete Mission: Beat Turret Challenge" 743001022 "story_completion" (some 22) none
        none false
    ∷ location "Complete Mission: Defeat Marauders in Arena" 743001023 "story_completion" (some 23)
        none none false
    ∷ location "Complete Mission: Destroy Eggs in Nest" 743001024 "story_completion" (some 24) none
        none false
    ∷ location "Complete Mission: Climb Monk Temple Tower" 743001025 "story_completion" (some 25)
        none none false
    ∷ location "Complete Mission: Glide to Volcano" 743001026 "story_completion" (some 26) none none
        false
    ∷ location "Complete Mission: Find Satellite in Volcano" 743001027 "story_completion" (some 27)
        none none false
    ∷ location "Complete Mission: Find Oracle in Monk Temple" 743001028 "story_completion" (some 28)
        none none false
    ∷ location "Complete Mission: Defend Ashelin at Oasis" 743001029 "story_completion" (some 29)
        none none false
    ∷ location "Complete Mission: Complete Monk Temple Tests" 743001030 "story_completion" (some 30)
        none none false
    ∷ location "Complete Mission: Travel Through Catacomb Subrails" 743001031 "story_completion"
        (some 31) none none false
    ∷ location "Complete Mission: Explore Eco Mine" 743001032 "story_completion" (some 32) none none
        false
    ∷ location "Complete Mission: Escort Bomb Train" 743001033 "story_completion" (some 33) none
        none false
    ∷ location "Complete Mission: Defeat Veger's Precursor Robot" 743001034 "story_completion"
        (some 34) none none false
    ∷ location "Complete Mission: Reach Port via Sewer" 743001035 "story_completion" (some 35) none
        none false
    ∷ location "Complete Mission: Destroy Incoming Blast Bots" 743001037 "story_completion"
        (some 37) none none false
    ∷ location "Complete Mission: Destroy Barrier with Missile" 743001038 "story_completion"
        (some 38) none none false
    ∷ location "Complete Mission: Beat Gun Course 1" 743001039 "story_completion" (some 39) none
        none false
    ∷ location "Complete Mission: Destroy Sniper Cannons" 743001040 "story_completion" (some 40)
        none none false
    ∷ location "Complete Mission: Reach Metal Head Area via Sewer" 743001041 "story_completion"
        (some 41) none none false
    ∷ location "Complete Mission: Destroy Dark Eco Tanks" 743001042 "story_completion" (some 42)
        none none false
    ∷ location "Complete Mission: Kill Dark Plants in Forest" 743001043 "story_completion" (some 43)
        none none false
    ∷ location "Complete Mission: Destroy Eco Grid with Jinx" 743001044 "story_completion" (some 44)
        none none false
    ∷ location "Complete Mission: Hijack Eco Vehicle" 743001045 "story_completion" (some 45) none
        none false
    ∷ location "Complete Mission: Defend Port from Attack" 743001046 "story_completion" (some 46)
        none none false
    ∷ location "Complete Mission: Beat Gun Course 2" 743001047 "story_completion" (some 47) none
        none false
    ∷ location "Complete Mission: Break Barrier with Blast Bot" 743001048 "story_completion"
        (some 48) none none false
    ∷ location "Complete Mission: Defend HQ from Attack" 743001049 "story_completion" (some 49) none
        none false
    ∷ location "Complete Mission: Find Switch in Sewers" 743001050 "story_completion" (some 50) none
        none false
    ∷ location "Complete Mission: Find Cipher in Eco Grid" 743001051 "story_completion" (some 51)
        none none false
    ∷ location "Complete Mission: Race for More Artifacts" 743001052 "story_completion" (some 52)
        none none false
    ∷ location "Complete Mission: Destroy Metal-pedes in Nest" 743001053 "story_completion"
        (some 53) none none false
    ∷ location "Complete Mission: Chase Down Metal Head Beasts" 743001054 "story_completion"
        (some 54) none none false
    ∷ location "Complete Mission: Defend Spargus Front Gate" 743001055 "story_completion" (some 55)
        none none false
    ∷ location "Complete Mission: Take Out Marauder Stronghold" 743001056 "story_completion"
        (some 56) none none false
    ∷ location "Complete Mission: Beat Pillar Ring Challenges" 743001057 "story_completion"
        (some 57) none none false
    ∷ location "Complete Mission: Destroy War Factory Defenses" 743001058 "story_completion"
        (some 58) none none false
    ∷ location "Complete Mission: Explore War Factory" 743001059 "story_completion" (some 59) none
        none false
    ∷ location "Complete Mission: Defeat Cyber-Errol" 743001060 "story_completion" (some 60) none
        none false
    ∷ location "Complete Mission: Rescue Seem at Temple" 743001061 "story_completion" (some 61) none
        none false
    ∷ location "Complete Mission: Defend Spargus" 743001062 "story_completion" (some 62) none none
        false
    ∷ location "Complete Mission: Activate Astro-Viewer" 743001063 "story_completion" (some 63) none
        none false
    ∷ location "Complete Mission: Destroy Dark Ship Shield" 743001064 "story_completion" (some 64)
        none none false
    ∷ location "Complete Mission: Blow Open Tower Door" 743001065 "story_completion" (some 65) none
        none false
    ∷ location "Complete Mission: Destroy Metal Head Tower" 743001066 "story_completion" (some 66)
        none none false
    ∷ location "Complete Mission: Reach Catacombs via Palace Ruins" 743001067 "story_completion"
        (some 67) none none false
    ∷ location "Complete Mission: Break Through Ruins" 743001068 "story_completion" (some 68) none
        none false
    ∷ location "Complete Mission: Reach Precursor Core" 743001069 "story_completion" (some 69) none
        none false
    ∷ location "Complete Mission: Destroy Dark Ship" 743001070 "story_completion" (some 70) none
        none false
    ∷ location "Complete Mission: Destroy Final Boss" 743001071 "story_completion" (some 71) none
        none false
    ∷ []

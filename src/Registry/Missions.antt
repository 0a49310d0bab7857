-- ===== src/Registry/Missions.antt =====
-- The native mission table of worlds/jak3/registry.py.
use jak3_ap.Prelude.{none, some, List, [], ◌∷◌}
use jak3_ap.Registry.Records.{MissionRecord, mission}

unfoldable pub missions : List MissionRecord
missions =
    mission 6 "city-start" "city-start" "Opening" (some "task-6-opening") none
    ∷ mission 7 "desert-interceptors" "desert-interceptors" "Desert Interceptors"
        (some "task-7-desert-interceptors") none
    ∷ mission 8 "desert-vehicle-training-1" "desert-vehicle-training-1" "Vehicle Tutorial 1"
        (some "task-8-vehicle-tutorial-1") none
    ∷ mission 9 "desert-vehicle-training-2" "desert-vehicle-training-2" "Vehicle Tutorial 2"
        (some "task-9-vehicle-tutorial-2") none
    ∷ mission 10 "arena-training-1" "arena-training-1" "Complete Arena Training"
        (some "task-10-arena-training") none
    ∷ mission 11 "arena-fight-1" "arena-fight-1" "Earn 1st War Amulet"
        (some "task-11-power-lessons") none
    ∷ mission 12 "wascity-chase" "wascity-chase" "Catch Kanga-Rats" (some "task-12-leaper-chase")
        none
    ∷ mission 13 "wascity-pre-game" "wascity-pre-game" "Unlock Satellite"
        (some "task-13-satellite-turret") none
    ∷ mission 14 "desert-turtle-training" "desert-turtle-training" "Learn to Drive a Vehicle"
        (some "task-14-tough-puppy-training") none
    ∷ mission 15 "desert-course-race" "desert-course-race" "Beat Kleiver in Desert Race"
        (some "task-15-desert-race") none
    ∷ mission 16 "desert-artifact-race-1" "desert-artifact-race-1" "Race for Artifacts"
        (some "task-16-artifact-race") none
    ∷ mission 17 "wascity-leaper-race" "wascity-leaper-race" "Beat Monks in Leaper Race"
        (some "task-17-leaper-race") none
    ∷ mission 18 "desert-hover" "desert-hover" "Destroy Metal Head Beasts"
        (some "task-18-sand-shark") none
    ∷ mission 19 "arena-fight-2" "arena-fight-2" "Earn 2nd War Amulet" (some "task-19-gun-training")
        none
    ∷ mission 20 "desert-catch-lizards" "desert-catch-lizards" "Corral Wild Leapers"
        (some "task-20-leaper-corral") none
    ∷ mission 21 "desert-rescue" "desert-rescue" "Rescue Wastelanders"
        (some "task-21-rescue-satellite") none
    ∷ mission 22 "wascity-gungame" "wascity-gungame" "Beat Turret Challenge"
        (some "task-22-turret-challenge") none
    ∷ mission 23 "arena-fight-3" "arena-fight-3" "Defeat Marauders in Arena"
        (some "task-23-gun-training") none
    ∷ mission 24 "nest-eggs" "nest-eggs" "Destroy Eggs in Nest" (some "task-24-gila-stomper") none
    ∷ mission 25 "temple-climb" "temple-climb" "Climb Monk Temple Tower" none none
    ∷ mission 26 "desert-glide" "desert-glide" "Glide to Volcano" (some "task-26-flut-flut") none
    ∷ mission 27 "volcano-darkeco" "volcano-darkeco" "Find Satellite in Volcano"
        (some "task-27-volcano-daxter-invisibility") none
    ∷ mission 28 "temple-oracle" "temple-oracle" "Find Oracle in Monk Temple"
        (some "task-28-light-regeneration") none
    ∷ mission 29 "desert-oasis-defense" "desert-oasis-defense" "Defend Ashelin at Oasis"
        (some "task-29-oasis-defense") none
    ∷ mission 30 "temple-tests" "temple-tests" "Complete Monk Temple Tests"
        (some "task-30-flash-freeze") (some "task-30-seal-portal")
    ∷ mission 31 "comb-travel" "comb-travel" "Travel Through Catacomb Subrails"
        (some "task-31-subrail") none
    ∷ mission 32 "mine-explore" "mine-explore" "Explore Eco Mine" (some "task-32-mine-sequence")
        none
    ∷ mission 33 "mine-blow" "mine-blow" "Escort Bomb Train" (some "task-33-bomb-train") none
    ∷ mission 34 "mine-boss" "mine-boss" "Defeat Veger's Precursor Robot"
        (some "task-34-precursor-robot") none
    ∷ mission 35 "sewer-met-hum" "sewer-met-hum" "Reach Port via Sewer" none none
    ∷ mission 36 "city-vehicle-training" "city-vehicle-training" "Haven Hover-Zone Tutorial"
        (some "task-36-haven-vehicle-tutorial") none
    ∷ mission 37 "city-port-fight" "city-port-fight" "Destroy Incoming Blast Bots"
        (some "task-37-blast-bots") none
    ∷ mission 38 "city-port-attack" "city-port-attack" "Destroy Barrier with Missile"
        (some "task-38-missile") none
    ∷ mission 39 "city-gun-course-1" "city-gun-course-1" "Beat Gun Course 1"
        (some "task-39-gun-course") none
    ∷ mission 40 "city-sniper-fight" "city-sniper-fight" "Destroy Sniper Cannons" none none
    ∷ mission 41 "sewer-kg-met" "sewer-kg-met" "Reach Metal Head Area via Sewer" none none
    ∷ mission 42 "city-destroy-darkeco" "city-destroy-darkeco" "Destroy Dark Eco Tanks"
        (some "task-42-dark-strike") none
    ∷ mission 43 "forest-kill-plants" "forest-kill-plants" "Kill Dark Plants in Forest"
        (some "task-43-board-trail") none
    ∷ mission 44 "city-destroy-grid" "city-destroy-grid" "Destroy Eco Grid with Jinx"
        (some "task-44-jinx-vehicle") none
    ∷ mission 45 "city-hijack-vehicle" "city-hijack-vehicle" "Hijack Eco Vehicle"
        (some "task-45-eco-vehicle") none
    ∷ mission 46 "city-port-assault" "city-port-assault" "Defend Port from Attack"
        (some "task-46-port-defense") none
    ∷ mission 47 "city-gun-course-2" "city-gun-course-2" "Beat Gun Course 2"
        (some "task-47-gun-course") none
    ∷ mission 48 "city-blow-barricade" "city-blow-barricade" "Break Barrier with Blast Bot"
        (some "task-48-blast-bot") none
    ∷ mission 49 "city-protect-hq" "city-protect-hq" "Defend HQ from Attack" none none
    ∷ mission 50 "sewer-hum-kg" "sewer-hum-kg" "Find Switch in Sewers" none none
    ∷ mission 51 "city-power-game" "city-power-game" "Find Cipher in Eco Grid"
        (some "task-51-eco-grid") none
    ∷ mission 52 "desert-artifact-race-2" "desert-artifact-race-2" "Race for More Artifacts"
        (some "task-52-artifact-race") none
    ∷ mission 53 "nest-hunt" "nest-hunt" "Destroy Metal-pedes in Nest" (some "task-53-gila-stomper")
        none
    ∷ mission 54 "desert-beast-battle" "desert-beast-battle" "Chase Down Metal Head Beasts"
        (some "task-54-beast-chase") none
    ∷ mission 55 "desert-jump-mission" "desert-jump-mission" "Defend Spargus Front Gate" none none
    ∷ mission 56 "desert-chase-marauders" "desert-chase-marauders" "Take Out Marauder Stronghold"
        none none
    ∷ mission 57 "forest-ring-chase" "forest-ring-chase" "Beat Pillar Ring Challenges" none none
    ∷ mission 58 "factory-sky-battle" "factory-sky-battle" "Destroy War Factory Defenses"
        (some "task-58-fighter") none
    ∷ mission 59 "factory-assault" "factory-assault" "Explore War Factory"
        (some "task-59-factory-daxter-vehicle") none
    ∷ mission 60 "factory-boss" "factory-boss" "Defeat Cyber-Errol" (some "task-60-factory-boss")
        none
    ∷ mission 61 "temple-defend" "temple-defend" "Rescue Seem at Temple"
        (some "task-61-light-flight") none
    ∷ mission 62 "wascity-defend" "wascity-defend" "Defend Spargus" (some "task-62-spargus-turret")
        none
    ∷ mission 63 "forest-turn-on-machine" "forest-turn-on-machine" "Activate Astro-Viewer"
        (some "task-63-astro-viewer-combat") (some "task-63-astro-viewer-artifacts")
    ∷ mission 64 "precursor-tour" "precursor-tour" "Destroy Dark Ship Shield"
        (some "task-64-dark-maker-suit") none
    ∷ mission 65 "city-blow-tower" "city-blow-tower" "Blow Open Tower Door"
        (some "task-65-mounted-shooter") none
    ∷ mission 66 "tower-destroy" "tower-destroy" "Destroy Metal Head Tower" none none
    ∷ mission 67 "palace-ruins-patrol" "palace-ruins-patrol" "Reach Catacombs via Palace Ruins" none
        none
    ∷ mission 68 "palace-ruins-attack" "palace-ruins-attack" "Break Through Ruins"
        (some "task-68-slam-dozer") none
    ∷ mission 69 "comb-wild-ride" "comb-wild-ride" "Reach Precursor Core" (some "task-69-subrail")
        none
    ∷ mission 70 "precursor-destroy-ship" "precursor-destroy-ship" "Destroy Dark Ship" none none
    ∷ mission 71 "desert-final-boss" "desert-final-boss" "Destroy Final Boss"
        (some "task-71-finale-loadout") none
    ∷ mission 72 "city-win" "city-win" "City Win" none none
    ∷ mission 88 "desert-bbush-get-to-19" "wascity-bbush-get-to-19" "Orb Hunt / Get-To Challenge 16"
        none none
    ∷ mission 114 "desert-bbush-ring-1" "desert-bbush-ring-1" "Desert Ring Challenge 1" none none
    ∷ mission 115 "desert-bbush-ring-2" "desert-bbush-ring-2" "Desert Ring Challenge 2" none none
    ∷ mission 116 "wascity-bbush-ring-3" "wascity-bbush-ring-3" "Spargus Ring Challenge 3"
        (some "task-116-race-vehicle") none
    ∷ mission 117 "wascity-bbush-ring-4" "wascity-bbush-ring-4" "Spargus Ring Challenge 4"
        (some "task-117-race-vehicle") none
    ∷ mission 118 "city-bbush-ring-5" "city-bbush-ring-5" "Haven Ring Challenge 5"
        (some "task-118-haven-vehicle") none
    ∷ mission 119 "city-bbush-ring-6" "city-bbush-ring-6" "Haven Ring Challenge 6"
        (some "task-119-haven-vehicle") none
    ∷ mission 120 "desert-bbush-egg-spider-1" "desert-bbush-egg-spider-1" "Egg Spider Challenge"
        none none
    ∷ mission 121 "desert-bbush-spirit-chase-1" "desert-bbush-spirit-chase-1" "Desert Spirit Chase"
        none none
    ∷ mission 122 "wascity-bbush-spirit-chase-2" "wascity-bbush-spirit-chase-2"
        "Spargus Spirit Chase" none none
    ∷ mission 123 "city-bbush-spirit-chase-3" "city-bbush-spirit-chase-3" "Haven Spirit Chase"
        (some "task-123-haven-vehicle") none
    ∷ mission 124 "desert-bbush-timer-chase-1" "desert-bbush-timer-chase-1" "Desert Timer Chase"
        none none
    ∷ mission 125 "wascity-bbush-timer-chase-2" "wascity-bbush-timer-chase-2" "Spargus Timer Chase"
        none none
    ∷ mission 126 "desert-bbush-air-time" "desert-bbush-air-time" "Single Air-Time Challenge" none
        none
    ∷ mission 127 "desert-bbush-total-air-time" "desert-bbush-total-air-time"
        "Total Air-Time Challenge" none none
    ∷ mission 128 "desert-bbush-jump-distance" "desert-bbush-jump-distance"
        "Single Jump-Distance Challenge" none none
    ∷ mission 129 "desert-bbush-total-jump-distance" "desert-bbush-total-jump-distance"
        "Total Jump-Distance Challenge" none none
    ∷ mission 130 "desert-bbush-roll-count" "desert-bbush-roll-count" "Vehicle Roll-Count Challenge"
        none none
    ∷ mission 131 "desert-bbush-time-trial-1" "desert-bbush-time-trial-1" "Wasteland Time Trial"
        none none
    ∷ mission 132 "desert-bbush-rally" "desert-bbush-rally" "Wasteland Rally" none none
    ∷ mission 133 "city-bbush-port-attack" "city-bbush-port-attack" "Port Attack Challenge"
        (some "task-133-port-attack") none
    ∷ mission 134 "desert-rescue-bbush" "desert-rescue-bbush" "Wastelander Rescue Challenge" none
        none
    ∷ mission 135 "city-gun-course-play-for-fun" "city-gun-course-play-for-fun"
        "Gun Course Free Play" (some "task-135-gun-course") none
    ∷ mission 136 "city-jetboard-bbush" "city-jetboard-bbush" "Jetboard Challenge" none none
    ∷ mission 137 "desert-bbush-destroy-interceptors" "desert-bbush-destroy-interceptors"
        "Destroy Interceptors Challenge" none none
    ∷ []

-- ===== src/Registry/Sides.antt =====
-- The selected side-challenge locations of worlds/jak3/registry.py.
use jak3_ap.Prelude.{true, false, none, some, List, [], ◌∷◌}
use jak3_ap.Registry.Records.{LocationRecord, location}

unfoldable pub selected_side_locations : List LocationRecord
selected_side_locations =
    location "Complete Challenge: Desert Ring Challenge 1" 743001114 "selected_side_challenge"
      (some 114) none none false
    ∷ location "Complete Challenge: Desert Ring Challenge 2" 743001115 "selected_side_challenge"
        (some 115) none none false
    ∷ location "Complete Challenge: Spargus Ring Challenge 3" 743001116 "selected_side_challenge"
        (some 116) none none false
    ∷ location "Complete Challenge: Spargus Ring Challenge 4" 743001117 "selected_side_challenge"
        (some 117) none none false
    ∷ location "Complete Challenge: Haven Ring Challenge 5" 743001118 "selected_side_challenge"
        (some 118) none none false
    ∷ location "Complete Challenge: Haven Ring Challenge 6" 743001119 "selected_side_challenge"
        (some 119) none none false
    ∷ location "Complete Challenge: Egg Spider Challenge" 743001120 "selected_side_challenge"
        (some 120) none none false
    ∷ location "Complete Challenge: Desert Spirit Chase" 743001121 "selected_side_challenge"
        (some 121) none none false
    ∷ location "Complete Challenge: Spargus Spirit Chase" 743001122 "selected_side_challenge"
        (some 122) none none false
    ∷ location "Complete Challenge: Haven Spirit Chase" 743001123 "selected_side_challenge"
        (some 123) none none false
    ∷ location "Complete Challenge: Desert Timer Chase" 743001124 "selected_side_challenge"
        (some 124) none none false
    ∷ location "Complete Challenge: Spargus Timer Chase" 743001125 "selected_side_challenge"
        (some 125) none none false
    ∷ location "Complete Challenge: Single Air-Time Challenge" 743001126 "selected_side_challenge"
        (some 126) none none false
    ∷ location "Complete Challenge: Total Air-Time Challenge" 743001127 "selected_side_challenge"
        (some 127) none none true
    ∷ location "Complete Challenge: Single Jump-Distance Challenge" 743001128
        "selected_side_challenge" (some 128) none none false
    ∷ location "Complete Challenge: Total Jump-Distance Challenge" 743001129
        "selected_side_challenge" (some 129) none none true
    ∷ location "Complete Challenge: Vehicle Roll-Count Challenge" 743001130
        "selected_side_challenge" (some 130) none none true
    ∷ location "Complete Challenge: Wasteland Time Trial" 743001131 "selected_side_challenge"
        (some 131) none none true
    ∷ location "Complete Challenge: Wasteland Rally" 743001132 "selected_side_challenge" (some 132)
        none none true
    ∷ location "Complete Challenge: Port Attack Challenge" 743001133 "selected_side_challenge"
        (some 133) none none false
    ∷ location "Complete Challenge: Wastelander Rescue Challenge" 743001134
        "selected_side_challenge" (some 134) none none false
    ∷ location "Complete Challenge: Gun Course Free Play" 743001135 "selected_side_challenge"
        (some 135) none none false
    ∷ location "Complete Challenge: Jetboard Challenge" 743001136 "selected_side_challenge"
        (some 136) none none true
    ∷ location "Complete Challenge: Destroy Interceptors Challenge" 743001137
        "selected_side_challenge" (some 137) none none false
    ∷ []

-- ===== src/Registry/Orbs.antt =====
-- The orb-threshold locations of worlds/jak3/registry.py.
use jak3_ap.Prelude.{true, false, none, some, List, [], ◌∷◌}
use jak3_ap.Registry.Records.{LocationRecord, location}

unfoldable pub orb_threshold_locations : List LocationRecord
orb_threshold_locations =
    location "Precursor Orb Threshold: 25" 743030025 "precursor_orb_threshold" none none (some 25)
      false
    ∷ location "Precursor Orb Threshold: 50" 743030050 "precursor_orb_threshold" none none (some 50)
        false
    ∷ location "Precursor Orb Threshold: 75" 743030075 "precursor_orb_threshold" none none (some 75)
        false
    ∷ location "Precursor Orb Threshold: 100" 743030100 "precursor_orb_threshold" none none
        (some 100) false
    ∷ location "Precursor Orb Threshold: 125" 743030125 "precursor_orb_threshold" none none
        (some 125) false
    ∷ location "Precursor Orb Threshold: 150" 743030150 "precursor_orb_threshold" none none
        (some 150) false
    ∷ location "Precursor Orb Threshold: 175" 743030175 "precursor_orb_threshold" none none
        (some 175) false
    ∷ location "Precursor Orb Threshold: 200" 743030200 "precursor_orb_threshold" none none
        (some 200) false
    ∷ location "Precursor Orb Threshold: 225" 743030225 "precursor_orb_threshold" none none
        (some 225) false
    ∷ location "Precursor Orb Threshold: 250" 743030250 "precursor_orb_threshold" none none
        (some 250) false
    ∷ location "Precursor Orb Threshold: 275" 743030275 "precursor_orb_threshold" none none
        (some 275) false
    ∷ location "Precursor Orb Threshold: 300" 743030300 "precursor_orb_threshold" none none
        (some 300) false
    ∷ location "Precursor Orb Threshold: 325" 743030325 "precursor_orb_threshold" none none
        (some 325) true
    ∷ location "Precursor Orb Threshold: 350" 743030350 "precursor_orb_threshold" none none
        (some 350) true
    ∷ location "Precursor Orb Threshold: 375" 743030375 "precursor_orb_threshold" none none
        (some 375) true
    ∷ location "Precursor Orb Threshold: 400" 743030400 "precursor_orb_threshold" none none
        (some 400) true
    ∷ location "Precursor Orb Threshold: 425" 743030425 "precursor_orb_threshold" none none
        (some 425) true
    ∷ location "Precursor Orb Threshold: 450" 743030450 "precursor_orb_threshold" none none
        (some 450) true
    ∷ location "Precursor Orb Threshold: 475" 743030475 "precursor_orb_threshold" none none
        (some 475) true
    ∷ location "Precursor Orb Threshold: 500" 743030500 "precursor_orb_threshold" none none
        (some 500) true
    ∷ location "Precursor Orb Threshold: 525" 743030525 "precursor_orb_threshold" none none
        (some 525) true
    ∷ location "Precursor Orb Threshold: 550" 743030550 "precursor_orb_threshold" none none
        (some 550) true
    ∷ location "Precursor Orb Threshold: 575" 743030575 "precursor_orb_threshold" none none
        (some 575) true
    ∷ location "Precursor Orb Threshold: 600" 743030600 "precursor_orb_threshold" none none
        (some 600) true
    ∷ []

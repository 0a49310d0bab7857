-- ===== src/Protocol/Session/Status.antt =====
-- The state of the Archipelago save that the client reports to the game.
use jak3_ap.Prelude.{
  subst, ok-injective, ℕ, ◌<◌, ◌≡◌, refl, ℤ, pos, negsuc, String, Bool, true, false, Option, none,
  some, ok, >>=-eq-ok, arith,
}
use jak3_ap.Protocol.Session.{
  BridgeState, set_ap_state_status, validate_goal_string, loaded_slot, loaded_identity,
}

-- A state is reported either as not loaded, without a slot, or as loaded, bound or not, with one of
-- the four slots and an identity that the wire can carry.
StatusFits : Bool → Bool → ℤ → Option String → Type 0
StatusFits false bound slot identity = (bound ≡ false) × (slot ≡ negsuc 0) × (identity ≡ none)
StatusFits true bound slot identity =
    ((n : ℕ) × (slot ≡ pos n) × (n < 4))
    × ((text : String) × (identity ≡ some text) × (validate_goal_string text ≡ ok tt))

pub HasStatus : BridgeState → Type 0
unfolding StatusFits
HasStatus s =
    StatusFits s.ap_state_loaded s.ap_state_bound s.ap_state_native_save_slot
      s.ap_state_native_save_identity

slot_lem :
    (slot : Option ℤ) (found : ℤ)
    → loaded_slot slot ≡ ok found
    → (n : ℕ) × (found ≡ pos n) × (n < 4)
unfolding loaded_slot
slot_lem none found h = cc
slot_lem (some (pos n)) found h = (n, ground arith, ground arith)
slot_lem (some (negsuc n)) found h = cc

identity_lem :
    (identity : Option String) (found : String)
    → loaded_identity identity ≡ ok found
    → validate_goal_string found ≡ ok tt
unfolding loaded_identity
identity_lem none found h = cc
identity_lem (some text) found h = ground arith

unloaded_lem :
    (bound : Bool) (slot : Option ℤ) (identity : Option String) (s s' : BridgeState)
    → set_ap_state_status false bound slot identity s ≡ ok s'
    → HasStatus s'
unfolding set_ap_state_status HasStatus StatusFits
unloaded_lem true slot identity s s' h = cc
unloaded_lem false slot identity s s' h =
    subst HasStatus (ok-injective h) (unfold HasStatus StatusFits in (refl, refl, refl))

-- `set_ap_state_status`, when it does not raise, leaves a status that fits.
pub set_ap_state_status-HasStatus :
    (loaded bound : Bool) (slot : Option ℤ) (identity : Option String) (s s' : BridgeState)
    → set_ap_state_status loaded bound slot identity s ≡ ok s'
    → HasStatus s'
unfolding set_ap_state_status
set_ap_state_status-HasStatus false bound slot identity s s' h =
    unloaded_lem bound slot identity s s' h
set_ap_state_status-HasStatus true bound slot identity s s' h =
    let (found, a, rest) = >>=-eq-ok (loaded_slot slot) _ h in
    let (text, b, same) = >>=-eq-ok (loaded_identity identity) _ rest in
    subst HasStatus (ok-injective same) (
      unfold HasStatus StatusFits in
      (slot_lem slot found a, (text, refl, identity_lem identity text b)))

-- ===== src/Repository/Session/Live.antt =====
-- `open_live` of the `StateRepository` (worlds/jak3/persistence.py): openings from the running game,
-- which bind a state to a slot only if the save identity has been authorized for it.
use jak3_ap.Prelude.{◌≡◌, String, Bool, true, Option, some, Result, ok}
use jak3_ap.Persistence.State.{NativeSaveDescriptor, AuthenticatedSlot}
use jak3_ap.Persistence.Identity.{Platform}
use jak3_ap.Encoding.Json.{Library}
use jak3_ap.Encoding.Authorization.{require_save_identity_authorization}
use jak3_ap.Encoding.Authorization.OneSlot.{SameSlot, require_save_identity_authorization-SameSlot}
use jak3_ap.Repository.{Codec, Stage}
use jak3_ap.Repository.Session.{Root, StateSession}
use jak3_ap.Repository.Session.Open.{run_check, open_session}
use jak3_ap.Repository.Session.Open.Begins.{open_session-IsBegun}

module _ (lib : Library) {p : Platform} (codec : Codec p) (fault : Stage → Bool)
    (native_save : NativeSaveDescriptor) (a : AuthenticatedSlot)
    (file : Option (Library.Bytes lib)) where
  -- with the authorization file of the save identity
  unfoldable pub open_live :
      Bool → String → Root (Codec.Bytes codec) → Result StateSession × Root (Codec.Bytes codec)
  open_live =
      open_session codec fault
        (some (require_save_identity_authorization lib p file native_save.identity a)) native_save
        (some a)

  -- If open_live has bound the state to the slot, the authorization file of the save identity passes
  -- the check for this slot, and for no other slot.
  pub open_live-SameSlot :
      (granted : Bool) (id : String) (root root' : Root (Codec.Bytes codec))
      (session : StateSession)
      → open_live granted id root ≡ (ok session, root')
      → session.binding_performed ≡ true
      → (require_save_identity_authorization lib p file native_save.identity a ≡ ok tt)
        × ((b : AuthenticatedSlot)
            → require_save_identity_authorization lib p file native_save.identity b ≡ ok tt
            → SameSlot a b)
  unfolding open_live run_check
  open_live-SameSlot granted id root root' session h bound =
      let check = require_save_identity_authorization lib p file native_save.identity a in
      let begun =
        open_session-IsBegun codec fault (some check) native_save (some a) granted id root root'
          session h in
      let passed = begun.authorized bound in
      (
        passed,
        λ b other.
            (require_save_identity_authorization-SameSlot lib p file native_save.identity
              native_save.identity a b passed other).1,
      )

-- ===== src/Repository/Session/Switch.antt =====
-- `StateSession.switch` of worlds/jak3/persistence.py.
use jak3_ap.Prelude.{
  ◌≡◌, refl, ap, sym, String, Bool, true, false, subst, Option, none, Result, ok, err, ok-not-err,
}
use jak3_ap.Persistence.State.{NativeSaveDescriptor, AuthenticatedSlot}
use jak3_ap.Persistence.Identity.{Platform}
use jak3_ap.Repository.Session.InSync.{InSync}
use jak3_ap.Repository.Session.Shutdown.{ShutDown, session_close-ShutDown}
use jak3_ap.Repository.{Codec, Stage}
use jak3_ap.Repository.Session.{Root, StateSession, session_close}
use jak3_ap.Repository.Session.Open.{open_session}
use jak3_ap.Repository.Session.Open.Begins.{IsBegun, open_session-IsBegun}

module _ {p : Platform} (codec : Codec p) (fault : Stage → Bool)
    (native_save : NativeSaveDescriptor) (slot : Option AuthenticatedSlot) (granted : Bool)
    (id : String) where
  open codec use {Bytes}

  -- the opening after the close, which is not reached when the close raises
  open_next :
      Result (Unit {0}) × StateSession × Root Bytes
      → Result StateSession × StateSession × Root Bytes
  open_next (err e, ended, root) = (err e, ended, root)
  open_next (ok closed, ended, root) =
      let (r, root') = open_session codec fault none native_save slot granted id root in
      (r, ended, root')

  -- the result, the old session after it, and the directory after it
  unfoldable pub session_switch :
      StateSession → Root Bytes → Result StateSession × StateSession × Root Bytes
  unfolding open_next
  session_switch session root = open_next (session_close codec fault true session root)

  next-IsBegun :
      (q : Result (Unit {0}) × StateSession × Root Bytes) (next : StateSession)
      → (open_next q).0 ≡ ok next
      → (q.0 ≡ ok tt)
        × (q.1 ≡ (open_next q).1)
        × IsBegun codec fault none native_save slot next
            ((open_next q).2.files native_save.identity)
  unfolding open_next
  next-IsBegun (err e, ended, root) next h = absurd (ok-not-err (sym h))
  next-IsBegun (ok tt, ended, root) next h = (
    refl,
    refl,
    open_session-IsBegun codec fault none native_save slot granted id root
        (open_session codec fault none native_save slot granted id root).1 next
        (ap
          (λ (r : Result StateSession).
            (r, (open_session codec fault none native_save slot granted id root).1))
          h),
  )

  -- A switch from an open session, in step with the file of its save, that returns a session has
  -- ended the old one: its state carries the mark of a clean shutdown, committed at the next
  -- revision unless it was there before, and after the close, before the new session is opened, the
  -- file of the old save holds that state. The new session is in step with the files of the save
  -- that it was given.
  pub session_switch-ShutDown :
      (session next : StateSession) (root : Root Bytes)
      → session.is_closed ≡ false
      → InSync codec session (root.files session.native_save.identity)
      → (session_switch session root).0 ≡ ok next
      → ShutDown codec session
          (session_switch session root).1
          ((session_close codec fault true session root).2.files session.native_save.identity)
        × IsBegun codec fault none native_save slot next
            ((session_switch session root).2.files native_save.identity)
  unfolding session_switch
  session_switch-ShutDown session next root opened f h =
      let q = session_close codec fault true session root in
      let (closes, ended, begun) = next-IsBegun q next h in
      (
        subst
            (λ (t : StateSession).
              ShutDown codec session t (q.2.files session.native_save.identity))
            ended (session_close-ShutDown codec fault session root opened f.held closes),
        begun,
      )

-- ===== src/Repository/Session/System.antt =====
-- The sessions of one process over one state directory: whatever is called, in whatever order, with
-- whatever faults, and whether it returns or raises.
use jak3_ap.Prelude.{
  ℕ, ◌+◌, ◌≡◌, String, Bool, true, false, Option, List, [], ◌∷◌, ◌++◌, Error, Result, ok, err,
  if◌then◌else◌,
}
use jak3_ap.Persistence.State.{NativeSaveDescriptor, AuthenticatedSlot, PersistentState}
use jak3_ap.Persistence.Identity.{Platform}
use jak3_ap.Repository.{Codec, Disk, Stage}
use jak3_ap.Repository.Session.{
  Root, put_files, StateSession, session_commit, session_bind, session_close,
}
use jak3_ap.Repository.Session.Open.{open_session}

pub record System (Bytes : Type 0) : Type 0 where
  pub root : Root Bytes
  pub sessions : List StateSession

-- the number of sessions that are not closed
unfoldable pub open_count : List StateSession → ℕ
open_count [] = 0
open_count (session ∷ sessions) =
    if session.is_closed then open_count sessions else 1 + open_count sessions

unfoldable pub lock_count : Bool → ℕ
lock_count true = 1
lock_count false = 0

module _ {p : Platform} (codec : Codec p) where
  open codec use {Bytes}

  pub data Step (x : System Bytes) : System Bytes → Type 0 where
    opens :
        (fault : Stage → Bool) (authorization : Option (Result (Unit {0})))
        (native_save : NativeSaveDescriptor) (slot : Option AuthenticatedSlot) (granted : Bool)
        (id : String) (session : StateSession) (root : Root Bytes)
        → open_session codec fault authorization native_save slot granted id x.root
          ≡ (ok session, root)
        → Step x (record { root = root; sessions = session ∷ x.sessions })
    refuses :
        (fault : Stage → Bool) (authorization : Option (Result (Unit {0})))
        (native_save : NativeSaveDescriptor) (slot : Option AuthenticatedSlot) (granted : Bool)
        (id : String) (e : Error) (root : Root Bytes)
        → open_session codec fault authorization native_save slot granted id x.root ≡ (err e, root)
        → Step x (record { root = root; sessions = x.sessions })
    commits :
        (fault : Stage → Bool) (s : PersistentState) (before : List StateSession)
        (session : StateSession) (after : List StateSession) (r : Result PersistentState)
        (session' : StateSession) (disk : Disk Bytes)
        → x.sessions ≡ before ++ session ∷ after
        → session_commit codec fault s session (x.root.files session.native_save.identity)
          ≡ (r, session', disk)
        → Step x (record {
          root = put_files session.native_save.identity disk x.root;
          sessions = before ++ session' ∷ after;
        })
    binds :
        (fault : Stage → Bool) (slot : AuthenticatedSlot) (before : List StateSession)
        (session : StateSession) (after : List StateSession) (r : Result PersistentState)
        (session' : StateSession) (disk : Disk Bytes)
        → x.sessions ≡ before ++ session ∷ after
        → session_bind codec fault slot session (x.root.files session.native_save.identity)
          ≡ (r, session', disk)
        → Step x (record {
          root = put_files session.native_save.identity disk x.root;
          sessions = before ++ session' ∷ after;
        })
    closes :
        (fault : Stage → Bool) (clean : Bool) (before : List StateSession) (session : StateSession)
        (after : List StateSession) (r : Result (Unit {0})) (session' : StateSession)
        (root : Root Bytes)
        → x.sessions ≡ before ++ session ∷ after
        → session_close codec fault clean session x.root ≡ (r, session', root)
        → Step x (record { root = root; sessions = before ++ session' ∷ after })

  -- the systems that a process reaches from a directory that no session of it uses
  pub data Reach (files : String → Disk Bytes) : System Bytes → Type 0 where
    start : Reach files (record { root = record { locked = false; files = files }; sessions = [] })
    later : {x y : System Bytes} → Reach files x → Step x y → Reach files y

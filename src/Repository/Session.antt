-- ===== src/Repository/Session.antt =====
-- `StateSession`, the writer lease and `_open` of worlds/jak3/persistence.py, over the files of every
-- native save under one root. The path of a save is a digest of its identity, so the files are
-- found by the identity. Whether the operating system grants its file lock is an argument, and so is
-- the result of the authorization check that `open_live` adds.
pub mod Open
pub mod System
pub mod Exclusive
pub mod Ends
pub mod Binding
pub mod InSync
pub mod Fits
pub mod Live
pub mod Switch
pub mod Shutdown
use jak3_ap.Prelude.{
  ℕ, ◌==◌, String, Bool, true, false, not, ◌&&◌, Option, none, some, List, [], ◌∷◌, Error, Result,
  ok, err, binding, closed, corruption, compatibility, file_missing, stale_revision, writer_locked,
  ◌>>=◌, ◌>>◌, require, if◌then◌else◌,
}
use text.Mathlib.Text.{◌==◌ as str_eq}
use jak3_ap.Persistence.State.{NativeSaveDescriptor, AuthenticatedSlot, PersistentState}
use jak3_ap.Persistence.Identity.{Platform, is_bound, validate_identity_text}
use jak3_ap.Persistence.Equal.{same_texts, same_numbers, same_state}
use jak3_ap.Persistence.Validate.{validate_state, post_init}
use jak3_ap.Persistence.Create.{bind}
use jak3_ap.Repository.{
  Codec, Disk, Stage, StateOpenStatus, load_state_file, commit, quarantine_orphan_temps,
}
use jak3_ap.Repository.Open.{load_or_create}

-- the state directory: whether the root is in `_PROCESS_LOCKED_ROOTS`, and the files of each save
pub record Root (Bytes : Type 0) : Type 0 where
  pub locked : Bool
  pub files : String → Disk Bytes

unfoldable pub put_files : {B : Type 0} → String → Disk B → Root B → Root B
put_files identity disk root = record root {
  files = λ other. if str_eq other identity then disk else root.files other;
}

-- `_StateWriterLease.acquire`
unfoldable pub acquire : {B : Type 0} → Bool → Root B → Result (Unit {0}) × Root B
acquire granted root =
    if root.locked
    then (err writer_locked, root)
    else if granted
    then (ok tt, record root { locked = true })
    else (err writer_locked, record root { locked = false })

-- `_StateWriterLease.release`
unfoldable pub release : {B : Type 0} → Root B → Root B
release root = record root { locked = false }

pub record StateSession : Type 0 where
  pub native_save : NativeSaveDescriptor
  pub authenticated_slot : Option AuthenticatedSlot
  pub state : PersistentState
  pub status : StateOpenStatus
  pub binding_performed : Bool
  pub is_closed : Bool

-- the comparison of two `_binding_tuple`s
unfoldable pub same_binding : PersistentState → PersistentState → Bool
unfolding same_texts same_numbers
same_binding s t =
    same_texts s.seed_identifier t.seed_identifier
    && same_numbers s.team t.team
    && same_numbers s.slot t.slot
    && same_texts s.slot_name t.slot_name

module _ {p : Platform} (codec : Codec p) where
  open codec use {Bytes}

  -- A method of a session: its result, the session after it and the files after it.
  abbrev pub Outcome : Type 0 → Type 0
  Outcome A = Result A × StateSession × Disk Bytes

  -- the checks of `StateSession.commit`
  unfoldable pub check_session_commit : PersistentState → StateSession → Result (Unit {0})
  unfolding same_binding
  check_session_commit s session = do
    require (not session.is_closed) closed
    require (str_eq s.state_instance_id session.state.state_instance_id) stale_revision
    require (same_binding s session.state) binding
    validate_state p s (some session.native_save) session.authenticated_slot

  -- the session after the commit of its repository
  keep_committed : StateSession → Result PersistentState × Disk Bytes → Outcome PersistentState
  keep_committed session (err e, disk) = (err e, session, disk)
  keep_committed session (ok committed, disk) =
      (ok committed, record session { state = committed }, disk)

  commit_checked :
      (Stage → Bool)
      → PersistentState
      → StateSession
      → Disk Bytes
      → Result (Unit {0})
      → Outcome PersistentState
  unfolding keep_committed
  commit_checked fault s session disk (err e) = (err e, session, disk)
  commit_checked fault s session disk (ok checked) =
      keep_committed session (commit codec fault s session.state.state_revision disk)

  -- `StateSession.commit`
  unfoldable pub session_commit :
      (Stage → Bool) → PersistentState → StateSession → Disk Bytes → Outcome PersistentState
  unfolding commit_checked check_session_commit
  session_commit fault s session disk =
      commit_checked fault s session disk (check_session_commit s session)

  bound_to : AuthenticatedSlot → StateSession → PersistentState → Result (Option PersistentState)
  unfolding same_state
  bound_to a session bound =
      if same_state bound session.state
      then ok none
      else validate_state p bound (some session.native_save) (some a) >> ok (some bound)

  -- what `StateSession.bind` commits, if `bind` has changed the state
  unfoldable pub bound_state : AuthenticatedSlot → StateSession → Result (Option PersistentState)
  unfolding bound_to
  bound_state a session = do
    require (not session.is_closed) closed
    bound ← bind p session.state a
    bound_to a session bound

  keep_bound : AuthenticatedSlot → Outcome PersistentState → Outcome PersistentState
  keep_bound a (err e, session, disk) = (err e, session, disk)
  keep_bound a (ok s, session, disk) =
      (ok s, record session { authenticated_slot = some a; binding_performed = true }, disk)

  bind_checked :
      (Stage → Bool)
      → AuthenticatedSlot
      → StateSession
      → Disk Bytes
      → Result (Option PersistentState)
      → Outcome PersistentState
  unfolding keep_bound keep_committed
  bind_checked fault a session disk (err e) = (err e, session, disk)
  bind_checked fault a session disk (ok none) =
      (ok session.state, record session { authenticated_slot = some a }, disk)
  bind_checked fault a session disk (ok (some s)) =
      keep_bound a (keep_committed session (commit codec fault s session.state.state_revision disk))

  -- `StateSession.bind`
  unfoldable pub session_bind :
      (Stage → Bool) → AuthenticatedSlot → StateSession → Disk Bytes → Outcome PersistentState
  unfolding bind_checked bound_state
  session_bind fault a session disk = bind_checked fault a session disk (bound_state a session)

  shut : {A : Type 0} → Outcome A → Outcome (Unit {0})
  shut (r, session, disk) = (r >>= (λ _. ok tt), record session { is_closed = true }, disk)

  close_marked :
      (Stage → Bool) → StateSession → Disk Bytes → Result PersistentState → Outcome (Unit {0})
  unfolding shut session_commit
  close_marked fault session disk (err e) = (err e, record session { is_closed = true }, disk)
  close_marked fault session disk (ok s) = shut (session_commit fault s session disk)

  -- the commit of `StateSession.close`, and the end of the session
  unfoldable pub close_files :
      (Stage → Bool) → Bool → StateSession → Disk Bytes → Outcome (Unit {0})
  unfolding close_marked
  close_files fault clean session disk =
      if clean && not session.state.last_clean_shutdown
      then close_marked fault session disk
          (post_init p (record session.state { last_clean_shutdown = true }))
      else (ok tt, record session { is_closed = true }, disk)

  -- `StateSession.close`
  unfoldable pub session_close :
      (Stage → Bool)
      → Bool
      → StateSession
      → Root Bytes
      → Result (Unit {0}) × StateSession × Root Bytes
  unfolding close_files release put_files
  session_close fault clean session root =
      let identity = session.native_save.identity in
      let (r, ended, disk) = close_files fault clean session (root.files identity) in
      if session.is_closed
      then (ok tt, session, root)
      else (r, ended, release (put_files identity disk root))

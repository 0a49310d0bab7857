-- ===== src/Repository/Open.antt =====
-- `_load_or_create` of the `StateRepository` (worlds/jak3/persistence.py), which `_open` calls under
-- the writer lease.
pub mod Recovery
pub mod Holds
pub mod Creates
use jak3_ap.Prelude.{
  String, Bool, true, false, Option, none, some, Error, Result, ok, err, corruption, compatibility,
  file_missing, ◌>>=◌, ◌>>◌, if◌then◌else◌, ◌||◌,
}
use jak3_ap.Persistence.State.{NativeSaveDescriptor, AuthenticatedSlot, PersistentState}
use jak3_ap.Persistence.Identity.{Platform, is_bound}
use jak3_ap.Persistence.Validate.{validate_state, post_init}
use jak3_ap.Persistence.Create.{create_unbound, bind}
use jak3_ap.Repository.{
  Codec, Disk, Stage, StateOpenStatus, has_candidates, quarantine_primary, quarantine_backup,
  quarantine_orphan_temps, load_state_file, commit,
}

module _ {p : Platform} (codec : Codec p) (native_save : NativeSaveDescriptor)
    (authenticated_slot : Option AuthenticatedSlot) where
  open codec use {Bytes, serialize}

  abbrev pub Opened : Type 0 → Type 0
  Opened A = Result A × Disk Bytes

  -- a file that loads and validates for this save and slot
  unfoldable pub load_validated : Option Bytes → Result PersistentState
  load_validated file = load_state_file codec file >>= λ s.
      validate_state p s (some native_save) authenticated_slot >> ok s

  -- `_restore_backup`
  unfoldable pub restore_backup : Disk Bytes → Disk Bytes
  restore_backup d = record d { primary = d.backup }

  write_first :
      PersistentState → Result Bytes → Disk Bytes → Opened (PersistentState × StateOpenStatus)
  write_first s (err e) d = (err e, d)
  write_first s (ok payload) d =
      (ok (s, StateOpenStatus.created), record d { primary = some payload })

  create_state : Result PersistentState → Disk Bytes → Opened (PersistentState × StateOpenStatus)
  unfolding write_first
  create_state (err e) d = (err e, d)
  create_state (ok s) d = write_first s (serialize s) d

  -- the primary is missing and there is a backup
  recover_missing : Result PersistentState → Disk Bytes → Opened (PersistentState × StateOpenStatus)
  unfolding restore_backup
  recover_missing (ok s) d = (ok (s, StateOpenStatus.recovered_backup), restore_backup d)
  recover_missing (err Error.corruption) d = (err corruption, quarantine_backup d)
  recover_missing (err e) d = (err e, d)

  -- the primary is corrupt
  recover_corrupt : Result PersistentState → Disk Bytes → Opened (PersistentState × StateOpenStatus)
  unfolding restore_backup
  recover_corrupt (ok s) d =
      (ok (s, StateOpenStatus.recovered_backup), restore_backup (quarantine_primary d))
  recover_corrupt (err Error.file_missing) d = (err corruption, quarantine_primary d)
  recover_corrupt (err Error.corruption) d =
      (err corruption, quarantine_backup (quarantine_primary d))
  recover_corrupt (err e) d = (err e, d)

  missing_primary : String → Option Bytes → Disk Bytes → Opened (PersistentState × StateOpenStatus)
  unfolding create_state recover_missing
  missing_primary id (some backup) d = recover_missing (load_validated (some backup)) d
  missing_primary id none d =
      if has_candidates d
      then (err corruption, d)
      else create_state (create_unbound p native_save id) d

  load_from :
      String → Result PersistentState → Disk Bytes → Opened (PersistentState × StateOpenStatus)
  unfolding missing_primary recover_corrupt
  load_from id (err Error.file_missing) d = missing_primary id d.backup d
  load_from id (err Error.corruption) d = recover_corrupt (load_validated d.backup) d
  load_from id (err e) d = (err e, d)
  load_from id (ok s) d = (
    validate_state p s (some native_save) authenticated_slot >> ok (s, StateOpenStatus.loaded),
    d,
  )

  -- `_load_or_create`, with the ID for a new state
  unfoldable pub load_or_create : String → Disk Bytes → Opened (PersistentState × StateOpenStatus)
  unfolding load_from load_validated
  load_or_create id d = load_from id (load_state_file codec d.primary) d

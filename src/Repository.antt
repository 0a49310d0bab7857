-- ===== src/Repository.antt =====
-- The `StateRepository` of worlds/jak3/persistence.py: loading, recovery and the atomic commit of
-- one state's files. Diagnostic events are left out: they change no file and no result.
pub mod Commit
pub mod Open
pub mod Files
pub mod Session
pub mod Returned
pub mod Once
pub mod Held
use jak3_ap.Prelude.{
  ℕ, ◌+◌, ◌≡◌, String, Bool, true, false, Option, none, some, List, [], ◌∷◌, ◌++◌, Error, Result,
  ok, err, corruption, compatibility, stale_revision, file_missing, injected_fault, ◌>>=◌, ◌>>◌,
  require, ◌==◌, if◌then◌else◌,
}
use text.Mathlib.Text.{◌==◌ as str_eq}
use jak3_ap.Persistence.State.{NativeSaveDescriptor, AuthenticatedSlot, PersistentState}
use jak3_ap.Persistence.Identity.{Platform}
use jak3_ap.Persistence.Validate.{validate_state, post_init}
use jak3_ap.Persistence.Create.{create_unbound}

-- The encoding of states as file contents (`serialize_state`, `deserialize_state`), as an
-- interface, which Repository/Files fills: what is written of a valid state reads back in its
-- canonical form, and what is read is valid. A state and its canonical form differ in the order of
-- dict keys at most, so they have the same identity and revision and pass the same validations.
pub record Codec (p : Platform) : Type 1 where
  pub Bytes : Type 0
  pub serialize : PersistentState → Result Bytes
  pub deserialize : Bytes → Result PersistentState
  pub canonical : PersistentState → PersistentState
  pub canonical_fits :
      (s : PersistentState) (native_save : Option NativeSaveDescriptor)
      (authenticated : Option AuthenticatedSlot)
      → validate_state p s native_save authenticated ≡ ok tt
      → validate_state p (canonical s) native_save authenticated ≡ ok tt
  pub canonical_same :
      (s : PersistentState)
      → ((canonical s).state_instance_id ≡ s.state_instance_id)
        × ((canonical s).state_revision ≡ s.state_revision)
  pub read_back :
      (s : PersistentState)
      → validate_state p s none none ≡ ok tt
      → (bytes : Bytes) × (serialize s ≡ ok bytes) × (deserialize bytes ≡ ok (canonical s))
  pub read_valid :
      (bytes : Bytes) (s : PersistentState)
      → deserialize bytes ≡ ok s
      → validate_state p s none none ≡ ok tt

-- the stages at which `_write_state` calls the fault injector
pub data Stage : Type 0 where
  after_temp_sync after_backup_replace before_primary_replace after_primary_replace : Stage

pub data StateOpenStatus : Type 0 where
  created loaded bound recovered_backup : StateOpenStatus

-- The files of one native save: the primary and its backup, the temporary files that an
-- interrupted write has left, and the files set aside as corrupt or interrupted.
pub record Disk (Bytes : Type 0) : Type 0 where
  pub primary : Option Bytes
  pub backup : Option Bytes
  pub temporaries : List Bytes
  pub quarantined : List Bytes

some_file : {B : Type 0} → List B → List B → Bool
some_file [] [] = false
some_file _ _ = true

-- `_quarantine_candidates(paths)` is not empty
unfoldable pub has_candidates : {B : Type 0} → Disk B → Bool
unfolding some_file
has_candidates d = some_file d.temporaries d.quarantined

quarantine_file : {B : Type 0} → Option B → List B → List B
quarantine_file none files = files
quarantine_file (some b) files = b ∷ files

-- `_quarantine(paths.primary, "corrupt")`
unfoldable pub quarantine_primary : {B : Type 0} → Disk B → Disk B
unfolding quarantine_file
quarantine_primary d = record d {
  primary = none;
  quarantined = quarantine_file d.primary d.quarantined;
}

-- `_quarantine(paths.backup, "corrupt")`
unfoldable pub quarantine_backup : {B : Type 0} → Disk B → Disk B
unfolding quarantine_file
quarantine_backup d = record d {
  backup = none;
  quarantined = quarantine_file d.backup d.quarantined;
}

-- `_quarantine_orphan_temps`
unfoldable pub quarantine_orphan_temps : {B : Type 0} → Disk B → Disk B
quarantine_orphan_temps d = record d {
  temporaries = [];
  quarantined = d.temporaries ++ d.quarantined;
}

module _ {p : Platform} (codec : Codec p) where
  open codec use {Bytes, serialize, deserialize}

  -- `_load_state_file`
  unfoldable pub load_state_file : Option Bytes → Result PersistentState
  load_state_file none = err file_missing
  load_state_file (some b) = deserialize b

  -- `_write_state` after the encoding: a method that changes files returns them beside its result
  unfoldable pub write_bytes :
      (Stage → Bool) → Bytes → Bytes → Disk Bytes → Result (Unit {0}) × Disk Bytes
  write_bytes fault payload previous disk =
      let synced = record disk { temporaries = payload ∷ disk.temporaries } in
      let saved = record synced { backup = some previous } in
      let replaced = record saved { primary = some payload; temporaries = disk.temporaries } in
      if fault Stage.after_temp_sync
      then (err injected_fault, synced)
      else if fault Stage.after_backup_replace
      then (err injected_fault, saved)
      else if fault Stage.before_primary_replace
      then (err injected_fault, saved)
      else if fault Stage.after_primary_replace
      then (err injected_fault, replaced)
      else (ok tt, replaced)

  write_encoded :
      (Stage → Bool) → Result Bytes → Bytes → Disk Bytes → Result (Unit {0}) × Disk Bytes
  unfolding write_bytes
  write_encoded fault (err e) previous disk = (err e, disk)
  write_encoded fault (ok payload) previous disk = write_bytes fault payload previous disk

  -- `_write_state`
  unfoldable pub write_state :
      (Stage → Bool) → PersistentState → Bytes → Disk Bytes → Result (Unit {0}) × Disk Bytes
  unfolding write_encoded
  write_state fault s previous disk = write_encoded fault (serialize s) previous disk

  -- the checks of `_commit_impl` against the file, and the state to write
  unfoldable pub check_commit : PersistentState → ℕ → PersistentState → Result PersistentState
  check_commit s expected_revision current = do
    require (str_eq current.state_instance_id s.state_instance_id) stale_revision
    require (current.state_revision == expected_revision) stale_revision
    post_init p (record s { state_revision = expected_revision + 1 })

  pub finish_commit :
      (Stage → Bool)
      → Bytes
      → Disk Bytes
      → Result PersistentState
      → Result PersistentState × Disk Bytes
  unfolding write_state
  finish_commit fault previous disk (err e) = (err e, disk)
  finish_commit fault previous disk (ok committed) =
      let (r, disk') = write_state fault committed previous disk in (r >> ok committed, disk')

  commit_over :
      (Stage → Bool)
      → PersistentState
      → ℕ
      → Disk Bytes
      → Option Bytes
      → Result PersistentState × Disk Bytes
  unfolding finish_commit check_commit
  commit_over fault s expected_revision disk none = (err stale_revision, disk)
  commit_over fault s expected_revision disk (some previous) =
      finish_commit fault previous disk (deserialize previous >>= check_commit s expected_revision)

  -- `_commit_impl`
  unfoldable pub commit :
      (Stage → Bool) → PersistentState → ℕ → Disk Bytes → Result PersistentState × Disk Bytes
  unfolding commit_over
  commit fault s expected_revision disk =
      if s.state_revision == expected_revision
      then commit_over fault s expected_revision disk disk.primary
      else (err stale_revision, disk)

-- ===== src/Repository/Session/Open.antt =====
-- `_open` of the `StateRepository` (worlds/jak3/persistence.py), with the writer lease. The check of
-- the save-identity authorization is an argument: `none` for `open`, its result for `open_live`.
pub mod Lock
pub mod Begins
pub mod Ready
use jak3_ap.Prelude.{
  String, Bool, true, false, not, ◌||◌, Option, none, some, Error, Result, ok, err, corruption,
  compatibility, file_missing, ◌>>=◌, ◌>>◌, if◌then◌else◌,
}
use jak3_ap.Persistence.State.{NativeSaveDescriptor, AuthenticatedSlot, PersistentState}
use jak3_ap.Persistence.Identity.{Platform, is_bound, validate_identity_text}
use jak3_ap.Persistence.Validate.{validate_state, post_init}
use jak3_ap.Persistence.Create.{bind}
use jak3_ap.Repository.{
  Codec, Disk, Stage, StateOpenStatus, load_state_file, commit, quarantine_orphan_temps,
}
use jak3_ap.Repository.Open.{load_or_create}
use jak3_ap.Repository.Session.{Root, put_files, acquire, release, StateSession}

-- what `_open` knows before it commits
pub record Opening : Type 0 where
  pub state : PersistentState
  pub status : StateOpenStatus
  pub changed : Bool
  pub binding_performed : Bool

bound_status : StateOpenStatus → StateOpenStatus
bound_status StateOpenStatus.recovered_backup = StateOpenStatus.recovered_backup
bound_status _ = StateOpenStatus.bound

unfoldable pub run_check : Option (Result (Unit {0})) → Result (Unit {0})
run_check none = ok tt
run_check (some result) = result

module _ {p : Platform} (codec : Codec p) (fault : Stage → Bool)
    (authorization : Option (Result (Unit {0}))) (native_save : NativeSaveDescriptor)
    (authenticated_slot : Option AuthenticatedSlot) where
  open codec use {Bytes}

  unless_bound : Result (Unit {0}) → Bool → Result (Unit {0})
  unless_bound check true = ok tt
  unless_bound check false = check

  preflight_found : Result (Unit {0}) → PersistentState → Result (Unit {0})
  unfolding unless_bound
  preflight_found check s = is_bound s >>= unless_bound check

  -- the backup, when the primary is missing
  preflight_backup : Result (Unit {0}) → Result PersistentState → Result (Unit {0})
  unfolding preflight_found
  preflight_backup check (ok s) = preflight_found check s
  preflight_backup check (err Error.file_missing) = check
  preflight_backup check (err Error.compatibility) = ok tt
  preflight_backup check (err Error.corruption) = ok tt
  preflight_backup check (err e) = err e

  -- the backup, when the primary is corrupt
  preflight_second : Result (Unit {0}) → Result PersistentState → Result (Unit {0})
  unfolding preflight_found
  preflight_second check (ok s) = preflight_found check s
  preflight_second check (err Error.file_missing) = ok tt
  preflight_second check (err Error.compatibility) = ok tt
  preflight_second check (err Error.corruption) = ok tt
  preflight_second check (err e) = err e

  preflight_from :
      Result (Unit {0}) → Result PersistentState → Result PersistentState → Result (Unit {0})
  unfolding preflight_found preflight_backup preflight_second
  preflight_from check (ok s) backup = preflight_found check s
  preflight_from check (err Error.file_missing) backup = preflight_backup check backup
  preflight_from check (err Error.compatibility) backup = ok tt
  preflight_from check (err Error.corruption) backup = preflight_second check backup
  preflight_from check (err e) backup = err e

  -- `_preflight_save_identity_authorization`, where `_open` calls it
  unfoldable pub preflight :
      Option (Result (Unit {0})) → Option AuthenticatedSlot → Disk Bytes → Result (Unit {0})
  unfolding preflight_from
  preflight (some check) (some a) d =
      preflight_from check (load_state_file codec d.primary) (load_state_file codec d.backup)
  preflight _ _ d = ok tt

  bind_unbound : AuthenticatedSlot → PersistentState → StateOpenStatus → Bool → Result Opening
  unfolding bound_status run_check
  bind_unbound a s status true =
      ok (record { state = s; status = status; changed = false; binding_performed = false })
  bind_unbound a s status false = do
    run_check authorization
    bound ← bind p s a
    ok (record {
      state = bound;
      status = bound_status status;
      changed = true;
      binding_performed = true;
    })

  -- the first binding of a state, when a slot has authenticated
  unfoldable pub bind_first :
      Option AuthenticatedSlot → PersistentState → StateOpenStatus → Result Opening
  unfolding bind_unbound
  bind_first none s status =
      ok (record { state = s; status = status; changed = false; binding_performed = false })
  bind_first (some a) s status = is_bound s >>= bind_unbound a s status

  clear_shutdown : Opening → Bool → Result Opening
  clear_shutdown o false = ok o
  clear_shutdown o true = do
    state ← post_init p (record o.state { last_clean_shutdown = false })
    ok (record o { state = state; changed = true })

  -- the state of the new session: the flag of a clean shutdown before it is cleared
  unfoldable pub begin_session : Opening → Result Opening
  unfolding clear_shutdown
  begin_session o =
      validate_state p o.state (some native_save) authenticated_slot
      >> clear_shutdown o o.state.last_clean_shutdown

  unfoldable pub session_of : Opening → PersistentState → StateSession
  session_of o s = record {
    native_save = native_save;
    authenticated_slot = authenticated_slot;
    state = s;
    status = o.status;
    binding_performed = o.binding_performed;
    is_closed = false;
  }

  finish_open : Opening → Result PersistentState × Disk Bytes → Result StateSession × Disk Bytes
  unfolding session_of
  finish_open o (err e, d) = (err e, d)
  finish_open o (ok s, d) = (ok (session_of o s), quarantine_orphan_temps d)

  commit_opening : Disk Bytes → Result Opening → Result StateSession × Disk Bytes
  unfolding finish_open
  commit_opening d (err e) = (err e, d)
  commit_opening d (ok o) =
      finish_open o
        (if o.changed then commit codec fault o.state o.state.state_revision d else (ok o.state, d))

  unfoldable pub opening_of : PersistentState × StateOpenStatus → Result Opening
  unfolding bind_first begin_session
  opening_of (s, status) = bind_first authenticated_slot s status >>= begin_session

  after_preflight : String → Disk Bytes → Result (Unit {0}) → Result StateSession × Disk Bytes
  unfolding commit_opening opening_of
  after_preflight id d (err e) = (err e, d)
  after_preflight id d (ok checked) =
      let (loaded, d') = load_or_create codec native_save authenticated_slot id d in
      commit_opening d' (loaded >>= opening_of)

  -- `_open` under the lease
  unfoldable pub open_files : String → Disk Bytes → Result StateSession × Disk Bytes
  unfolding after_preflight preflight
  open_files id d = after_preflight id d (do
    validate_identity_text 256 native_save.identity
    preflight authorization authenticated_slot d)

  -- a refused opening releases the lease
  unfoldable pub settle_open :
      Root Bytes → Result StateSession × Disk Bytes → Result StateSession × Root Bytes
  unfolding release put_files
  settle_open root (ok session, d) = (ok session, put_files native_save.identity d root)
  settle_open root (err e, d) = (err e, release (put_files native_save.identity d root))

  open_leased : String → Result (Unit {0}) × Root Bytes → Result StateSession × Root Bytes
  unfolding settle_open open_files
  open_leased id (err e, root) = (err e, root)
  open_leased id (ok leased, root) =
      settle_open root (open_files id (root.files native_save.identity))

  -- `_open`, with the answer of the operating system to the request for the file lock
  unfoldable pub open_session : Bool → String → Root Bytes → Result StateSession × Root Bytes
  unfolding open_leased acquire
  open_session granted id root = open_leased id (acquire granted root)

-- ===== src/Tests/Repository.antt =====
-- Commits and openings of a concrete disk.
use jak3_ap.Prelude.{
  ◌≡◌, ◌⊎◌, refl, inl, Bool, true, false, none, some, Error, Result, ok, err, [], ◌∷◌, arith,
  injected_fault, ◌>>◌, ◌↔◌,
}
use jak3_ap.Persistence.State.{PersistentState}
use jak3_ap.Persistence.Identity.{
  expected_contract, compare_contract, validate_uuid, validate_native_save_slot,
  validate_identity_text, validate_native_save, is_bound, validate_binding,
}
use jak3_ap.Persistence.Validate.{
  validate_state, validate_header, validate_application, validate_footer, post_init,
}
use jak3_ap.Persistence.Create.{unbound_state, create_unbound}
use jak3_ap.Persistence.Journal.{validate_journal}
use jak3_ap.Persistence.Locations.{validate_locations}
use jak3_ap.Persistence.Locations.Ledger.{IsLedger, validate_locations_iff}
use jak3_ap.IdSet.{member, subset, sorted_set, same_list, is_empty, intersection}
use jak3_ap.Registry.{item_ids, location_ids}
use jak3_ap.Repository.{
  Codec, Disk, Stage, StateOpenStatus, has_candidates, load_state_file, commit,
}
use jak3_ap.Repository.Commit.{Follows, Left, commit-Left, next_revision}
use jak3_ap.Repository.Open.{load_validated, load_or_create}
use jak3_ap.Repository.Open.Recovery.{load_or_create-backup, reopen_after_commit}
use jak3_ap.Repository.Held.{Held}
use jak3_ap.Repository.Open.Creates.{IsNew, load_or_create-IsNew}
use jak3_ap.Tests.Sample.{platform, save, state_id, playing, playing-IsValid}

-- files that hold the states themselves, and are validated when they are read
pub read_back_lem :
    (s : PersistentState)
    → validate_state platform s none none ≡ ok tt
    → (bytes : PersistentState) × (Result.ok s ≡ ok bytes)
      × ((validate_state platform bytes none none >> ok bytes) ≡ ok s)
read_back_lem s v = (s, refl, rw v refl)

pub read_valid_lem :
    (b s : PersistentState)
    → (validate_state platform b none none >> ok b) ≡ ok s
    → validate_state platform s none none ≡ ok tt
read_valid_lem b s h = ground arith

abbrev pub plain : Codec platform
plain = record {
  Bytes = PersistentState;
  serialize = λ s. ok s;
  deserialize = λ s. validate_state platform s none none >> ok s;
  canonical = λ s. s;
  canonical_same = λ s. (refl, refl);
  canonical_fits = λ s native_save authenticated h. h;
  read_back = read_back_lem;
  read_valid = read_valid_lem;
}

abbrev pub disk : Disk PersistentState
disk = record { primary = some playing; backup = none; temporaries = []; quarantined = [] }

abbrev never : Stage → Bool
never stage = false

-- the process stops between the two replacements
abbrev pub stops : Stage → Bool
stops Stage.after_backup_replace = true
stops _ = false

pub playing_holds : plain.deserialize playing ≡ ok playing
playing_holds = rw playing-IsValid refl

playing-Follows : Follows plain playing playing playing-IsValid disk
playing-Follows = record {
  previous = playing;
  on_disk = refl;
  holds = playing_holds;
  same_instance = refl;
  same_revision = refl;
}

commit-Left_example :
    Left plain playing playing playing-IsValid
      (commit plain stops playing playing.state_revision disk).0
      disk
      (commit plain stops playing playing.state_revision disk).1
commit-Left_example = commit-Left plain playing playing playing-IsValid stops disk playing-Follows

pub playing_fits : validate_state platform playing (some save) none ≡ ok tt
unfolding validate_state validate_header compare_contract expected_contract validate_uuid
    validate_native_save_slot validate_identity_text validate_native_save is_bound validate_binding
    validate_journal item_ids location_ids member validate_application validate_locations subset
    sorted_set same_list is_empty intersection validate_footer unbound_state
playing_fits = refl

next_fits : validate_state platform (next_revision playing) (some save) none ≡ ok tt
unfolding next_revision validate_state validate_header compare_contract expected_contract
    validate_uuid validate_native_save_slot validate_identity_text validate_native_save is_bound
    validate_binding validate_journal item_ids location_ids member validate_application
    validate_locations subset sorted_set same_list is_empty intersection validate_footer
    unbound_state
next_fits = refl

reopen_after_commit_example :
    (load_or_create plain save none state_id
          (commit plain stops playing playing.state_revision disk).1
        ≡ (
          ok (playing, StateOpenStatus.loaded),
          (commit plain stops playing playing.state_revision disk).1,
        )
      × ((commit plain stops playing playing.state_revision disk).0 ≡ err injected_fault))
    ⊎ (load_or_create plain save none state_id
          (commit plain stops playing playing.state_revision disk).1
        ≡ (
          ok (next_revision playing, StateOpenStatus.loaded),
          (commit plain stops playing playing.state_revision disk).1,
        ))
reopen_after_commit_example =
    reopen_after_commit plain save none state_id playing playing playing-IsValid stops disk
      playing-Follows playing_fits next_fits

playing_loads : load_state_file plain disk.primary ≡ ok playing
unfolding load_state_file
playing_loads = playing_holds

-- the primary is gone and the backup is there
abbrev lost_primary : Disk PersistentState
lost_primary = record { primary = none; backup = some playing; temporaries = []; quarantined = [] }

primary_missing : load_state_file plain lost_primary.primary ≡ err Error.file_missing
unfolding load_state_file
primary_missing = refl

backup_fits : load_validated plain save none lost_primary.backup ≡ ok playing
unfolding load_validated load_state_file
backup_fits = rw (playing-IsValid, playing_fits) refl

load_or_create-backup_example :
    (after : Disk PersistentState) × (load_or_create plain save none state_id lost_primary
      ≡ (ok (playing, StateOpenStatus.recovered_backup), after))
    × (after.primary ≡ lost_primary.backup)
    × (after.backup ≡ lost_primary.backup)
load_or_create-backup_example =
    load_or_create-backup plain save none state_id lost_primary playing (inl primary_missing)
      backup_fits

-- there is no file of the save yet
abbrev no_files : Disk PersistentState
no_files = record { primary = none; backup = none; temporaries = []; quarantined = [] }

abbrev fresh : PersistentState
fresh = unbound_state platform save state_id

creates_it :
    (load_or_create plain save none state_id no_files).0 ≡ ok (fresh, StateOpenStatus.created)
unfolding load_or_create load_state_file create_unbound has_candidates post_init validate_state
    validate_header compare_contract expected_contract validate_uuid validate_native_save_slot
    validate_identity_text validate_native_save is_bound validate_binding validate_journal item_ids
    location_ids member validate_application validate_locations subset sorted_set same_list is_empty
    intersection validate_footer unbound_state
creates_it = refl

load_or_create-IsNew_example :
    IsNew plain save none state_id no_files fresh
    × Held plain fresh (load_or_create plain save none state_id no_files).1
load_or_create-IsNew_example =
    load_or_create-IsNew plain save none state_id no_files fresh creates_it

validate_locations_iff_example :
    (validate_locations (743001010 ∷ []) [] (743001010 ∷ []) ≡ ok tt)
    ↔ IsLedger (743001010 ∷ []) [] (743001010 ∷ [])
validate_locations_iff_example = validate_locations_iff (743001010 ∷ []) [] (743001010 ∷ [])

-- ===== src/Repository/Open/Recovery.antt =====
-- What opening a native save finds on its disk.
use jak3_ap.Prelude.{
  ◌≡◌, refl, ap, ◌∙◌, ◌⊎◌, inl, inr, String, Bool, Option, none, some, ok, err, corruption,
  file_missing, injected_fault,
}
use jak3_ap.Persistence.State.{NativeSaveDescriptor, AuthenticatedSlot, PersistentState}
use jak3_ap.Persistence.Identity.{Platform}
use jak3_ap.Persistence.Validate.{validate_state}
use jak3_ap.Repository.{
  Codec, Disk, Stage, commit, StateOpenStatus, quarantine_primary, load_state_file,
}
use jak3_ap.Outbox.Transition.{IsValid}
use jak3_ap.Repository.Commit.{Follows, unchanged, written, commit-Left, next_revision}
use jak3_ap.Repository.Open.{
  load_validated, recover_missing, recover_corrupt, missing_primary, load_from, load_or_create,
}

module _ {p : Platform} (codec : Codec p) (native_save : NativeSaveDescriptor)
    (authenticated : Option AuthenticatedSlot) (id : String) (disk : Disk (Codec.Bytes codec)) where
  -- A primary that loads and fits the save and the slot is what opening returns; no file changes.
  pub load_or_create-primary :
      (s : PersistentState)
      → load_state_file codec disk.primary ≡ ok s
      → validate_state p s (some native_save) authenticated ≡ ok tt
      → load_or_create codec native_save authenticated id disk
        ≡ (ok (s, StateOpenStatus.loaded), disk)
  unfolding load_or_create load_from
  load_or_create-primary s h v = rw h (rw v)

  missing_lem :
      (file : Option (Codec.Bytes codec)) (s : PersistentState)
      → load_validated codec native_save authenticated file ≡ ok s
      → missing_primary codec native_save authenticated id file disk
        ≡ recover_missing codec native_save authenticated (ok s) disk
  missing_lem none s h = unfold load_validated load_state_file in cc
  missing_lem (some b) s h =
      unfold missing_primary in ap (λ r. recover_missing codec native_save authenticated r disk) h

  -- A primary that is missing or corrupt is replaced by a backup that loads and fits the save and
  -- the slot: opening returns the backup's state, and both files then hold the backup's content.
  pub load_or_create-backup :
      (s : PersistentState)
      → (load_state_file codec disk.primary ≡ err file_missing)
        ⊎ (load_state_file codec disk.primary ≡ err corruption)
      → load_validated codec native_save authenticated disk.backup ≡ ok s
      → (after : Disk (Codec.Bytes codec)) × (load_or_create codec native_save authenticated id disk
          ≡ (ok (s, StateOpenStatus.recovered_backup), after))
        × (after.primary ≡ disk.backup)
        × (after.backup ≡ disk.backup)
  unfolding load_or_create load_from recover_missing recover_corrupt quarantine_primary
  load_or_create-backup s (inl h) b = (
    record disk { primary = disk.backup },
    ap (λ r. load_from codec native_save authenticated id r disk) h ∙ missing_lem disk.backup s b,
    refl,
    refl,
  )
  load_or_create-backup s (inr h) b = (
    record (quarantine_primary disk) { primary = disk.backup },
    ap (λ r. load_from codec native_save authenticated id r disk) h
        ∙ ap (λ r. recover_corrupt codec native_save authenticated r disk) b,
    refl,
    refl,
  )

-- A commit is atomic to a later opening: whether it was interrupted at one of the four stages or
-- not, opening the disk that it leaves returns the old state or the canonical form of the next
-- revision, and the old state only if the commit has raised.
pub reopen_after_commit :
    {p : Platform} (codec : Codec p) (native_save : NativeSaveDescriptor)
    (authenticated : Option AuthenticatedSlot) (id : String) (s current : PersistentState)
    (v : IsValid p s) (fault : Stage → Bool) (disk : Disk (Codec.Bytes codec))
    → Follows codec s current v disk
    → validate_state p current (some native_save) authenticated ≡ ok tt
    → validate_state p (next_revision s) (some native_save) authenticated ≡ ok tt
    → (load_or_create codec native_save authenticated id
            (commit codec fault s s.state_revision disk).1
          ≡ (ok (current, StateOpenStatus.loaded), (commit codec fault s s.state_revision disk).1)
        × ((commit codec fault s s.state_revision disk).0 ≡ err injected_fault))
      ⊎ (load_or_create codec native_save authenticated id
            (commit codec fault s s.state_revision disk).1
          ≡ (
            ok (codec.canonical (next_revision s), StateOpenStatus.loaded),
            (commit codec fault s s.state_revision disk).1,
          ))
reopen_after_commit codec native_save authenticated id s current v fault disk f vc vn =
    elim (commit-Left codec s current v fault disk f) [
      | unchanged r l e ↦
          inl (load_or_create-primary codec native_save authenticated id _ current l vc, r)
      | written r l b t ↦ inr (
          load_or_create-primary codec native_save authenticated id _
            (codec.canonical (next_revision s)) l
            (codec.canonical_fits (next_revision s) (some native_save) authenticated vn))
    ]

-- ===== src/Repository/Commit.antt =====
-- A commit, interrupted or not, leaves one of two states on the disk.
use jak3_ap.Prelude.{
  ◌>>◌, ℕ, ◌+◌, ◌≡◌, refl, ◌⊎◌, inl, inr, Bool, Option, none, some, Result, ok, err, ◌>>=◌, ap, ◌∙◌,
  sym, subst, ◌≢◌, injected_fault, arith, stale_revision, ◌==◌, ==_iff, Bool-cases,
}
use text.Mathlib.TextPositions.{eq_refl}
use jak3_ap.Persistence.State.{PersistentState}
use jak3_ap.Persistence.Identity.{Platform}
use jak3_ap.Persistence.Validate.{
  validate_state, validate_header, validate_application, validate_footer, post_init,
}
use jak3_ap.Outbox.Transition.{IsValid}
use jak3_ap.Repository.{
  Codec, Disk, Stage, load_state_file, write_bytes, write_encoded, write_state, check_commit,
  finish_commit, commit_over, commit,
}

unfoldable pub next_revision : PersistentState → PersistentState
next_revision s = record s { state_revision = s.state_revision + 1 }

next_revision-IsValid :
    (p : Platform) (s : PersistentState) → IsValid p s → IsValid p (next_revision s)
unfolding validate_state next_revision validate_header validate_application validate_footer
next_revision-IsValid p s v = ground arith

module _ {p : Platform} (codec : Codec p) (s current : PersistentState) (v : IsValid p s) where
  open codec use {Bytes, serialize, deserialize, canonical, read_back}

  -- the commit of a revision of the state that the primary holds
  pub record Follows (disk : Disk Bytes) : Type 0 where
    pub previous : Bytes
    pub on_disk : disk.primary ≡ some previous
    pub holds : deserialize previous ≡ ok current
    pub same_instance : current.state_instance_id ≡ s.state_instance_id
    pub same_revision : current.state_revision ≡ s.state_revision

  check_commit_lem :
      (disk : Disk Bytes)
      → Follows disk
      → check_commit codec s s.state_revision current ≡ ok (next_revision s)
  unfolding check_commit post_init next_revision
  check_commit_lem disk f = rw (
    f.same_instance,
    eq_refl,
    f.same_revision,
    (==_iff s.state_revision s.state_revision).1 refl,
    next_state_valid,
  )
    where
      next_state_valid : IsValid p (record s { state_revision = s.state_revision + 1 })
      next_state_valid = next_revision-IsValid p s v

  commit_over_lem :
      (fault : Stage → Bool) (disk : Disk Bytes) (f : Follows disk)
      → commit_over codec fault s s.state_revision disk (some f.previous)
        ≡ finish_commit codec fault f.previous disk (ok (next_revision s))
  unfolding commit_over
  commit_over_lem fault disk f =
      ap (finish_commit codec fault f.previous disk)
        (ap (λ r. r >>= check_commit codec s s.state_revision) f.holds ∙ check_commit_lem disk f)

  commit-write :
      (fault : Stage → Bool) (disk : Disk Bytes) (f : Follows disk)
      → commit codec fault s s.state_revision disk
        ≡ finish_commit codec fault f.previous disk (ok (next_revision s))
  unfolding commit
  commit-write fault disk f = rw ((==_iff s.state_revision s.state_revision).1 refl) (
      ap (commit_over codec fault s s.state_revision disk) f.on_disk ∙ commit_over_lem fault disk f)

  -- What a commit, interrupted or not, leaves: either the primary is as it was and the commit
  -- has raised, or the primary holds the next revision and the backup the revision before.
  pub data Left (result : Result PersistentState) (before after : Disk Bytes) : Type 0 where
    unchanged :
        result ≡ err injected_fault
        → load_state_file codec after.primary ≡ ok current
        → after.primary ≡ before.primary
        → Left result before after
    written :
        (result ≡ ok (next_revision s)) ⊎ (result ≡ err injected_fault)
        → load_state_file codec after.primary ≡ ok (canonical (next_revision s))
        → load_state_file codec after.backup ≡ ok current
        → after.temporaries ≡ before.temporaries
        → Left result before after

  loads_current :
      (disk : Disk Bytes) → Follows disk → load_state_file codec disk.primary ≡ ok current
  unfolding load_state_file
  loads_current disk f = ap (load_state_file codec) f.on_disk ∙ f.holds

  loads_bytes :
      (bytes : Bytes) (t : PersistentState)
      → deserialize bytes ≡ ok t
      → load_state_file codec (some bytes) ≡ ok t
  unfolding load_state_file
  loads_bytes bytes t h = h

  bytes-Left :
      (fault : Stage → Bool) (disk : Disk Bytes) (f : Follows disk) (payload : Bytes)
      → deserialize payload ≡ ok (canonical (next_revision s))
      → Left
          ((write_bytes codec fault payload f.previous disk).0 >> ok (next_revision s))
          disk
          (write_bytes codec fault payload f.previous disk).1
  unfolding write_bytes
  bytes-Left fault disk f payload h = elim (Bool-cases (fault Stage.after_temp_sync)) [
    | inl e ↦ rw e (unchanged refl (loads_current disk f) refl)
    | inr e ↦ rw e (elim (Bool-cases (fault Stage.after_backup_replace)) [
      | inl e ↦ rw e (unchanged refl (loads_current disk f) refl)
      | inr e ↦ rw e (elim (Bool-cases (fault Stage.before_primary_replace)) [
        | inl e ↦ rw e (unchanged refl (loads_current disk f) refl)
        | inr e ↦ rw e (elim (Bool-cases (fault Stage.after_primary_replace)) [
          | inl e ↦
              rw e (written (inr refl) next_loads (loads_bytes f.previous current f.holds) refl)
          | inr e ↦
              rw e (written (inl refl) next_loads (loads_bytes f.previous current f.holds) refl)
        ])
      ])
    ])
  ]
    where
      next_loads : load_state_file codec (some payload) ≡ ok (canonical (next_revision s))
      next_loads = loads_bytes payload (canonical (next_revision s)) h

  finish_lem :
      (fault : Stage → Bool) (disk : Disk Bytes) (f : Follows disk) (payload : Bytes)
      → serialize (next_revision s) ≡ ok payload
      → finish_commit codec fault f.previous disk (ok (next_revision s)) ≡ (
        (write_bytes codec fault payload f.previous disk).0 >> ok (next_revision s),
        (write_bytes codec fault payload f.previous disk).1,
      )
  unfolding finish_commit write_state
  finish_lem fault disk f payload e =
      ap (λ (q : Result (Unit {0}) × Disk Bytes). (q.0 >> ok (next_revision s), q.1))
        (ap (λ r. write_encoded codec fault r f.previous disk) e ∙ unfold write_encoded in refl)

  -- A commit of the revision on the disk, interrupted at any stage or at none, leaves a disk whose
  -- primary loads as the old state or as the next revision, in its canonical form; in the second
  -- case the backup loads as the old state. A commit that returns has written what it returns.
  pub commit-Left :
      (fault : Stage → Bool) (disk : Disk Bytes)
      → Follows disk
      → Left
          (commit codec fault s s.state_revision disk).0
          disk
          (commit codec fault s s.state_revision disk).1
  commit-Left fault disk f =
      let (payload, e, h) = read_back (next_revision s) (next_revision-IsValid p s v) in
      subst (λ (q : Result PersistentState × Disk Bytes). Left q.0 disk q.1)
        (sym (commit-write fault disk f ∙ finish_lem fault disk f payload e))
        (bytes-Left fault disk f payload h)

module _ {p : Platform} (codec : Codec p) (fault : Stage → Bool) (s current : PersistentState)
    (expected : ℕ) (disk : Disk (Codec.Bytes codec)) where
  check_stale :
      current.state_revision ≢ expected → check_commit codec s expected current ≡ err stale_revision
  unfolding check_commit
  check_stale d = ground arith

  over_stale :
      (file : Option (Codec.Bytes codec))
      → load_state_file codec file ≡ ok current
      → current.state_revision ≢ expected
      → commit_over codec fault s expected disk file ≡ (err stale_revision, disk)
  unfolding commit_over load_state_file
  over_stale none h d = cc
  over_stale (some b) h d =
      ap (finish_commit codec fault b disk)
        (ap (λ r. r >>= check_commit codec s expected) h ∙ check_stale d)
      ∙ unfold finish_commit in refl

  -- Where the primary loads, a commit whose expected revision is not that of the proposed state, or
  -- not that of the state on the disk, raises the stale-revision error and leaves every file as it is.
  pub commit_stale :
      load_state_file codec disk.primary ≡ ok current
      → (current.state_revision ≢ expected) ⊎ (s.state_revision ≢ expected)
      → commit codec fault s expected disk ≡ (err stale_revision, disk)
  unfolding commit
  commit_stale h d = elim (Bool-cases (s.state_revision == expected)) [
    | inl e ↦ rw e (over_stale disk.primary h (ground arith))
    | inr e ↦ rw e refl
  ]

-- ===== src/Repository/Open/Creates.antt =====
-- When opening a native save creates a new state (`_load_or_create` of worlds/jak3/persistence.py).
use jak3_ap.Prelude.{
  ◌≡◌, refl, ap, String, Bool, true, false, Option, none, some, List, [], ◌∷◌, Error, Result, ok,
  err, ok-injective, arith, >>-eq-ok, if◌then◌else◌, corruption,
}
use jak3_ap.Persistence.State.{
  NativeSaveEligibility, NativeSaveDescriptor, AuthenticatedSlot, PersistentState,
}
use jak3_ap.Persistence.Identity.{Platform}
use jak3_ap.Persistence.Validate.{validate_state}
use jak3_ap.Persistence.Create.{unbound_state, create_unbound}
use jak3_ap.Persistence.Create.Valid.{created_unbound}
use jak3_ap.Repository.{Codec, Disk, StateOpenStatus, some_file, has_candidates, load_state_file}
use jak3_ap.Repository.Held.{Held}
use jak3_ap.Repository.Open.{
  load_validated, write_first, create_state, recover_missing, recover_corrupt, missing_primary,
  load_from, load_or_create,
}
use jak3_ap.Repository.Open.Holds.{load_or_create-Held}

no_file :
    {B : Type 0} (files others : List B)
    → some_file files others ≡ false
    → (files ≡ []) × (others ≡ [])
unfolding some_file
no_file [] [] h = (refl, refl)
no_file [] (b ∷ others) h = cc
no_file (b ∷ files) others h = cc

no_candidates :
    {B : Type 0} (d : Disk B)
    → has_candidates d ≡ false
    → (d.temporaries ≡ []) × (d.quarantined ≡ [])
unfolding has_candidates
no_candidates d h = no_file d.temporaries d.quarantined h

module _ {p : Platform} (codec : Codec p) (native_save : NativeSaveDescriptor)
    (slot : Option AuthenticatedSlot) (id : String) where
  open codec use {Bytes, serialize}

  -- No file of the save was there, not even a set aside or unfinished one, the save was eligible,
  -- and the state is the initial one.
  pub record IsNew (d : Disk Bytes) (s : PersistentState) : Type 0 where
    pub no_primary : load_state_file codec d.primary ≡ err Error.file_missing
    pub no_backup : d.backup ≡ none
    pub no_temporaries : d.temporaries ≡ []
    pub no_quarantined : d.quarantined ≡ []
    pub eligible : native_save.eligibility ≡ NativeSaveEligibility.fresh_unprogressed
    pub initial : s ≡ unbound_state p native_save id

  -- an opening of the disk that reports a created state reports a new one
  abbrev Creates : Disk Bytes → Result (PersistentState × StateOpenStatus) × Disk Bytes → Type 0
  Creates d q = (s : PersistentState) → q.0 ≡ ok (s, StateOpenStatus.created) → IsNew d s

  other_status :
      (s t : PersistentState) (status : StateOpenStatus)
      → ◌≡◌ {A = Result (PersistentState × StateOpenStatus)}
          (ok (s, status))
          (ok (t, StateOpenStatus.created))
      → (s ≡ t) × (status ≡ StateOpenStatus.created)
  other_status s t status h =
      let e = ok-injective h in
      (
        ap (λ (q : PersistentState × StateOpenStatus). q.0) e,
        ap (λ (q : PersistentState × StateOpenStatus). q.1) e,
      )

  missing-Creates :
      (d d' : Disk Bytes) (r : Result PersistentState)
      → Creates d (recover_missing codec native_save slot r d')
  unfolding recover_missing
  missing-Creates d d' (ok s) t h =
      let (_, q) = other_status s t StateOpenStatus.recovered_backup h in cc
  missing-Creates d d' (err Error.corruption) t h = cc
  missing-Creates d d' (err e) t h = ground arith

  corrupt-Creates :
      (d d' : Disk Bytes) (r : Result PersistentState)
      → Creates d (recover_corrupt codec native_save slot r d')
  unfolding recover_corrupt
  corrupt-Creates d d' (ok s) t h =
      let (_, q) = other_status s t StateOpenStatus.recovered_backup h in cc
  corrupt-Creates d d' (err Error.corruption) t h = cc
  corrupt-Creates d d' (err Error.file_missing) t h = cc
  corrupt-Creates d d' (err e) t h = ground arith

  first-same :
      (d : Disk Bytes) (s t : PersistentState) (r : Result Bytes)
      → (write_first codec native_save slot s r d).0 ≡ ok (t, StateOpenStatus.created)
      → s ≡ t
  unfolding write_first
  first-same d s t (err e) h = cc
  first-same d s t (ok payload) h = (other_status s t StateOpenStatus.created h).0

  create-same :
      (d : Disk Bytes) (r : Result PersistentState) (t : PersistentState)
      → (create_state codec native_save slot r d).0 ≡ ok (t, StateOpenStatus.created)
      → r ≡ ok t
  unfolding create_state
  create-same d (err e) t h = cc
  create-same d (ok s) t h = ap ok (first-same d s t (serialize s) h)

  primary-Creates :
      (d : Disk Bytes) (file : Option Bytes)
      → load_state_file codec d.primary ≡ err Error.file_missing
      → d.backup ≡ file
      → Creates d (missing_primary codec native_save slot id file d)
  unfolding missing_primary
  primary-Creates d (some backup) l b t h =
      missing-Creates d d (load_validated codec native_save slot (some backup)) t h
  primary-Creates d none l b t h = by_candidates (has_candidates d) refl h
    where
      by_candidates :
          (c : Bool)
          → has_candidates d ≡ c
          → (if c
              then (err corruption, d)
              else create_state codec native_save slot (create_unbound p native_save id) d).0
            ≡ ok (t, StateOpenStatus.created)
          → IsNew d t
      by_candidates true c h = cc
      by_candidates false c h =
          let (eligible, initial) =
            created_unbound p native_save id t
              (create-same d (create_unbound p native_save id) t h) in
          let (temporaries, quarantined) = no_candidates d c in
          record {
            no_primary = l;
            no_backup = b;
            no_temporaries = temporaries;
            no_quarantined = quarantined;
            eligible = eligible;
            initial = initial;
          }

  from-Creates :
      (d : Disk Bytes) (r : Result PersistentState)
      → load_state_file codec d.primary ≡ r
      → Creates d (load_from codec native_save slot id r d)
  unfolding load_from
  from-Creates d (ok s) l t h =
      let (_, e) = >>-eq-ok (validate_state p s (some native_save) slot) _ h in
      let (_, q) = other_status s t StateOpenStatus.loaded e in cc
  from-Creates d (err Error.file_missing) l t h = primary-Creates d d.backup l refl t h
  from-Creates d (err Error.corruption) l t h =
      corrupt-Creates d d (load_validated codec native_save slot d.backup) t h
  from-Creates d (err e) l t h = ground arith

  -- Opening reports a created state only if the primary was missing, there was no backup, no
  -- temporary and no quarantined file, and the save was eligible; the state is then the initial one
  -- of the save, and the file holds it.
  pub load_or_create-IsNew :
      (d : Disk Bytes) (s : PersistentState)
      → (load_or_create codec native_save slot id d).0 ≡ ok (s, StateOpenStatus.created)
      → IsNew d s × Held codec s (load_or_create codec native_save slot id d).1
  unfolding load_or_create
  load_or_create-IsNew d s h = (
    from-Creates d (load_state_file codec d.primary) refl s h,
    load_or_create-Held codec native_save slot id d s StateOpenStatus.created h,
  )

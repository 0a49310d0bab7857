-- ===== src/Repository/Open/Holds.antt =====
-- The file of a save after it has been loaded, recovered or created.
use jak3_ap.Prelude.{
  ◌≡◌, refl, ap, ◌∙◌, sym, String, Bool, true, false, Option, none, some, Error, Result, ok, err,
  ok-injective, subst, arith, >>-eq-ok, >>=-eq-ok, if◌then◌else◌, corruption,
}
use jak3_ap.Persistence.State.{NativeSaveDescriptor, AuthenticatedSlot, PersistentState}
use jak3_ap.Persistence.Identity.{Platform}
use jak3_ap.Persistence.Validate.{validate_state}
use jak3_ap.Persistence.Create.{create_unbound}
use jak3_ap.Persistence.Create.Valid.{create_unbound-IsValid}
use jak3_ap.Repository.{
  Codec, Disk, StateOpenStatus, has_candidates, quarantine_primary, load_state_file,
}
use jak3_ap.Repository.Held.{Held, loads-Held, same-Held}
use jak3_ap.Repository.Open.{
  load_validated, restore_backup, write_first, create_state, recover_missing, recover_corrupt,
  missing_primary, load_from, load_or_create,
}

module _ {p : Platform} (codec : Codec p) (native_save : NativeSaveDescriptor)
    (slot : Option AuthenticatedSlot) where
  open codec use {Bytes, serialize, deserialize, canonical, read_back}

  -- an opening that returns a state, returns one that the primary then holds
  abbrev Holds : Result (PersistentState × StateOpenStatus) × Disk Bytes → Type 0
  Holds q =
      (s : PersistentState) (status : StateOpenStatus) → q.0 ≡ ok (s, status) → Held codec s q.1

  returned :
      (s t : PersistentState) (status status' : StateOpenStatus) (d : Disk Bytes)
      → Held codec s d
      → ◌≡◌ {A = Result (PersistentState × StateOpenStatus)} (ok (s, status')) (ok (t, status))
      → Held codec t d
  returned s t status status' d h e =
      subst (λ (t : PersistentState). Held codec t d)
        (ap (λ (q : PersistentState × StateOpenStatus). q.0) (ok-injective e)) h

  first-Holds :
      (s : PersistentState) (d : Disk Bytes) (r : Result Bytes)
      → serialize s ≡ r
      → validate_state p s none none ≡ ok tt
      → Holds (write_first codec native_save slot s r d)
  unfolding write_first load_state_file
  first-Holds s d (err e) q v t status h = cc
  first-Holds s d (ok payload) q v t status h =
      let (bytes, e, loads) = read_back s v in
      returned s t status StateOpenStatus.created _
        (loads-Held codec _ s (ap deserialize (ok-injective (sym q ∙ e)) ∙ loads)) h

  create-Holds :
      (d : Disk Bytes) (r : Result PersistentState)
      → ((s : PersistentState) → r ≡ ok s → validate_state p s none none ≡ ok tt)
      → Holds (create_state codec native_save slot r d)
  unfolding create_state
  create-Holds d (err e) v t status h = cc
  create-Holds d (ok s) v t status h = first-Holds s d (serialize s) refl (v s refl) t status h

  missing-Holds :
      (d : Disk Bytes) (r : Result PersistentState)
      → ((s : PersistentState) → r ≡ ok s → load_state_file codec d.backup ≡ ok s)
      → Holds (recover_missing codec native_save slot r d)
  unfolding recover_missing restore_backup
  missing-Holds d (ok s) l t status h =
      returned s t status StateOpenStatus.recovered_backup _ (same-Held codec _ s (l s refl)) h
  missing-Holds d (err Error.corruption) l t status h = cc
  missing-Holds d (err e) l t status h = ground arith

  corrupt-Holds :
      (d : Disk Bytes) (r : Result PersistentState)
      → ((s : PersistentState) → r ≡ ok s → load_state_file codec d.backup ≡ ok s)
      → Holds (recover_corrupt codec native_save slot r d)
  unfolding recover_corrupt restore_backup quarantine_primary
  corrupt-Holds d (ok s) l t status h =
      returned s t status StateOpenStatus.recovered_backup _ (same-Held codec _ s (l s refl)) h
  corrupt-Holds d (err Error.corruption) l t status h = cc
  corrupt-Holds d (err Error.file_missing) l t status h = cc
  corrupt-Holds d (err e) l t status h = ground arith

  validated-loads :
      (file : Option Bytes) (s : PersistentState)
      → load_validated codec native_save slot file ≡ ok s
      → load_state_file codec file ≡ ok s
  unfolding load_validated
  validated-loads file s h =
      let (t, loads, r) = >>=-eq-ok (load_state_file codec file) _ h in
      let (_, same) = >>-eq-ok (validate_state p t (some native_save) slot) _ r in loads ∙ same

  primary-Holds :
      (id : String) (d : Disk Bytes) (file : Option Bytes)
      → d.backup ≡ file
      → Holds (missing_primary codec native_save slot id file d)
  unfolding missing_primary
  primary-Holds id d none b t status h = created (has_candidates d) t status h
    where
      created :
          (b : Bool)
          → Holds (
              if b
              then (err corruption, d)
              else create_state codec native_save slot (create_unbound p native_save id) d)
      created true t status h = cc
      created false t status h =
          create-Holds d (create_unbound p native_save id) (create_unbound-IsValid p native_save id)
            t status h
  primary-Holds id d (some backup) b t status h =
      missing-Holds d (load_validated codec native_save slot (some backup))
        (λ s e. ap (load_state_file codec) b ∙ validated-loads (some backup) s e) t status h

  from-Holds :
      (id : String) (d : Disk Bytes) (r : Result PersistentState)
      → load_state_file codec d.primary ≡ r
      → Holds (load_from codec native_save slot id r d)
  unfolding load_from
  from-Holds id d (ok s) l t status h =
      let (_, e) = >>-eq-ok (validate_state p s (some native_save) slot) _ h in
      returned s t status StateOpenStatus.loaded d (same-Held codec d s l) e
  from-Holds id d (err Error.file_missing) l t status h =
      primary-Holds id d d.backup refl t status h
  from-Holds id d (err Error.corruption) l t status h =
      corrupt-Holds d (load_validated codec native_save slot d.backup) (validated-loads d.backup) t
        status h
  from-Holds id d (err e) l t status h = ground arith

  pub load_or_create-Held :
      (id : String) (d : Disk Bytes) (s : PersistentState) (status : StateOpenStatus)
      → (load_or_create codec native_save slot id d).0 ≡ ok (s, status)
      → Held codec s (load_or_create codec native_save slot id d).1
  unfolding load_or_create
  load_or_create-Held id d s status h = from-Holds id d _ refl s status h

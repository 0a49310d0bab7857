-- ===== src/Repository/Returned.antt =====
-- What a commit returns.
use jak3_ap.Prelude.{
  ℕ, ◌+◌, ◌≡◌, ap, ◌∙◌, sym, Bool, true, false, Option, none, some, Result, ok, err, ok-injective,
  ◌==◌, subst, require, stale_revision, >>-eq-ok, >>=-eq-ok, arith, if◌then◌else◌,
}
use jak3_ap.Persistence.State.{PersistentState}
use jak3_ap.Persistence.Identity.{Platform}
use jak3_ap.Persistence.Validate.{validate_state, post_init}
use text.Mathlib.Text.{◌==◌ as str_eq}
use jak3_ap.Repository.Held.{Held, loads-Held}
use jak3_ap.Repository.{
  load_state_file, write_bytes, write_encoded, write_state, Codec, Disk, Stage, commit, commit_over,
  finish_commit, check_commit,
}

module _ {p : Platform} (codec : Codec p) where
  open codec use {Bytes}

  pub finish-ok :
      (fault : Stage → Bool) (previous : Bytes) (d : Disk Bytes) (r : Result PersistentState)
      (c : PersistentState)
      → (finish_commit codec fault previous d r).0 ≡ ok c
      → r ≡ ok c
  unfolding finish_commit
  finish-ok fault previous d (err e) c h = h
  finish-ok fault previous d (ok s) c h = (>>-eq-ok _ _ h).1

  check-ok :
      (s : PersistentState) (n : ℕ) (current c : PersistentState)
      → check_commit codec s n current ≡ ok c
      → record s { state_revision = n + 1 } ≡ c
  unfolding check_commit post_init
  check-ok s n current c h =
      let (_, r1) =
        >>-eq-ok (require (str_eq current.state_instance_id s.state_instance_id) stale_revision) _
          h in
      let (_, r2) = >>-eq-ok (require (current.state_revision == n) stale_revision) _ r1 in
      let (_, r3) =
        >>-eq-ok (validate_state p (record s { state_revision = n + 1 }) none none) _ r2 in
      ok-injective r3

  over-ok :
      (fault : Stage → Bool) (s : PersistentState) (n : ℕ) (d : Disk Bytes) (file : Option Bytes)
      (c : PersistentState)
      → (commit_over codec fault s n d file).0 ≡ ok c
      → record s { state_revision = n + 1 } ≡ c
  unfolding commit_over
  over-ok fault s n d none c h = cc
  over-ok fault s n d (some previous) c h =
      let (current, _, r) =
        >>=-eq-ok (codec.deserialize previous) (check_commit codec s n)
          (finish-ok fault previous d _ c h) in
      check-ok s n current c r

  -- what a commit returns
  pub commit-ok :
      (fault : Stage → Bool) (s : PersistentState) (n : ℕ) (d : Disk Bytes) (c : PersistentState)
      → (commit codec fault s n d).0 ≡ ok c
      → record s { state_revision = n + 1 } ≡ c
  unfolding commit
  commit-ok fault s n d c h = by_revision (s.state_revision == n) h
    where
      by_revision :
          (b : Bool)
          → (if b then commit_over codec fault s n d d.primary else (err stale_revision, d)).0
            ≡ ok c
          → record s { state_revision = n + 1 } ≡ c
      by_revision true h = over-ok fault s n d d.primary c h
      by_revision false h = cc

  write-primary :
      (fault : Stage → Bool) (payload previous : Bytes) (d : Disk Bytes)
      → (write_bytes codec fault payload previous d).0 ≡ ok tt
      → (write_bytes codec fault payload previous d).1.primary ≡ some payload
  unfolding write_bytes
  write-primary fault payload previous d h = ground arith

  encoded-Held :
      (fault : Stage → Bool) (c : PersistentState) (previous : Bytes) (d : Disk Bytes)
      → validate_state p c none none ≡ ok tt
      → (write_state codec fault c previous d).0 ≡ ok tt
      → Held codec c (write_state codec fault c previous d).1
  unfolding write_state write_encoded
  encoded-Held fault c previous d v h =
      let (payload, e, loads) = codec.read_back c v in
      along (sym e)
        (λ h. loads-Held codec _ c (
          ap (load_state_file codec) (write-primary fault payload previous d h)
          ∙ (unfold load_state_file in loads)))
        h
    where
      along :
          {r r' : Result Bytes}
          → r ≡ r'
          → ((write_encoded codec fault r previous d).0 ≡ ok tt
              → Held codec c (write_encoded codec fault r previous d).1)
          → (write_encoded codec fault r' previous d).0 ≡ ok tt
          → Held codec c (write_encoded codec fault r' previous d).1
      along = subst (λ (r : Result Bytes).
          (write_encoded codec fault r previous d).0 ≡ ok tt
          → Held codec c (write_encoded codec fault r previous d).1)

  finish-Held :
      (fault : Stage → Bool) (previous : Bytes) (d : Disk Bytes) (r : Result PersistentState)
      (c : PersistentState)
      → r ≡ ok c
      → validate_state p c none none ≡ ok tt
      → (finish_commit codec fault previous d r).0 ≡ ok c
      → Held codec c (finish_commit codec fault previous d r).1
  unfolding finish_commit
  finish-Held fault previous d (err e) c q v h = cc
  finish-Held fault previous d (ok s) c q v h =
      let same = ok-injective q in
      subst (λ (t : PersistentState). Held codec t (write_state codec fault s previous d).1) same
        (encoded-Held fault s previous d
          (subst (λ (t : PersistentState). validate_state p t none none ≡ ok tt) (sym same) v)
          (>>-eq-ok _ _ h).0)

  check-valid :
      (s : PersistentState) (n : ℕ) (current c : PersistentState)
      → check_commit codec s n current ≡ ok c
      → validate_state p c none none ≡ ok tt
  unfolding check_commit post_init
  check-valid s n current c h =
      let (_, r1) =
        >>-eq-ok (require (str_eq current.state_instance_id s.state_instance_id) stale_revision) _
          h in
      let (_, r2) = >>-eq-ok (require (current.state_revision == n) stale_revision) _ r1 in
      let (v, r3) =
        >>-eq-ok (validate_state p (record s { state_revision = n + 1 }) none none) _ r2 in
      subst (λ (t : PersistentState). validate_state p t none none ≡ ok tt) (ok-injective r3) v

  over-Held :
      (fault : Stage → Bool) (s : PersistentState) (n : ℕ) (d : Disk Bytes) (file : Option Bytes)
      (c : PersistentState)
      → (commit_over codec fault s n d file).0 ≡ ok c
      → Held codec c (commit_over codec fault s n d file).1
  unfolding commit_over
  over-Held fault s n d none c h = cc
  over-Held fault s n d (some previous) c h =
      let all = finish-ok fault previous d _ c h in
      let (current, _, r) = >>=-eq-ok (codec.deserialize previous) (check_commit codec s n) all in
      finish-Held fault previous d _ c all (check-valid s n current c r) h

  -- the file of a commit that returns holds what it returns
  pub commit-Held :
      (fault : Stage → Bool) (s : PersistentState) (n : ℕ) (d : Disk Bytes) (c : PersistentState)
      → (commit codec fault s n d).0 ≡ ok c
      → Held codec c (commit codec fault s n d).1
  unfolding commit
  commit-Held fault s n d c h = by_revision (s.state_revision == n) h
    where
      chosen : Bool → Result PersistentState × Disk Bytes
      chosen b = if b then commit_over codec fault s n d d.primary else (err stale_revision, d)

      by_revision : (b : Bool) → (chosen b).0 ≡ ok c → Held codec c (chosen b).1
      by_revision true h = over-Held fault s n d d.primary c h
      by_revision false h = cc

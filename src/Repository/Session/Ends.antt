-- ===== src/Repository/Session/Ends.antt =====
-- Which operations end a session.
use jak3_ap.Prelude.{
  ◌≡◌, refl, ap, ◌∙◌, sym, Bool, true, false, Option, none, some, Result, ok, err, Bool-cases, inl,
  inr, subst, if◌then◌else◌, ◌&&◌, not,
}
use jak3_ap.Persistence.State.{AuthenticatedSlot, PersistentState}
use jak3_ap.Persistence.Identity.{Platform}
use jak3_ap.Repository.{Codec, Disk, Stage, commit}
use jak3_ap.Repository.Session.{
  Root, put_files, acquire, release, StateSession, keep_committed, commit_checked, session_commit,
  keep_bound, bind_checked, session_bind, shut, close_marked, close_files, session_close,
  bound_state, check_session_commit, Outcome,
}

module _ {p : Platform} (codec : Codec p) where
  open codec use {Bytes}

  committed_closed :
      (session : StateSession) (q : Result PersistentState × Disk Bytes)
      → (keep_committed codec session q).1.is_closed ≡ session.is_closed
  unfolding keep_committed
  committed_closed session (err e, d) = refl
  committed_closed session (ok s, d) = refl

  bound_closed :
      (a : AuthenticatedSlot) (o : Outcome codec PersistentState)
      → (keep_bound codec a o).1.is_closed ≡ o.1.is_closed
  unfolding keep_bound
  bound_closed a (err e, session, d) = refl
  bound_closed a (ok s, session, d) = refl

  pub commit-is_closed :
      (fault : Stage → Bool) (s : PersistentState) (session : StateSession) (d : Disk Bytes)
      → (session_commit codec fault s session d).1.is_closed ≡ session.is_closed
  unfolding session_commit commit_checked
  commit-is_closed fault s session d = checked (check_session_commit codec s session)
    where
      checked :
          (r : Result (Unit {0}))
          → (commit_checked codec fault s session d r).1.is_closed ≡ session.is_closed
      checked (err e) = refl
      checked (ok h) =
          committed_closed session (commit codec fault s session.state.state_revision d)

  pub bind-is_closed :
      (fault : Stage → Bool) (a : AuthenticatedSlot) (session : StateSession) (d : Disk Bytes)
      → (session_bind codec fault a session d).1.is_closed ≡ session.is_closed
  unfolding session_bind bind_checked
  bind-is_closed fault a session d = checked (bound_state codec a session)
    where
      checked :
          (r : Result (Option PersistentState))
          → (bind_checked codec fault a session d r).1.is_closed ≡ session.is_closed
      checked (err e) = refl
      checked (ok none) = refl
      checked (ok (some s)) =
          let q = commit codec fault s session.state.state_revision d in
          bound_closed a (keep_committed codec session q) ∙ committed_closed session q

  marked_ended :
      (fault : Stage → Bool) (session : StateSession) (d : Disk Bytes) (r : Result PersistentState)
      → (close_marked codec fault session d r).1.is_closed ≡ true
  unfolding close_marked shut
  marked_ended fault session d (err e) = refl
  marked_ended fault session d (ok s) = refl

  pub ended :
      (fault : Stage → Bool) (clean : Bool) (session : StateSession) (d : Disk Bytes)
      → (close_files codec fault clean session d).1.is_closed ≡ true
  unfolding close_files
  ended fault clean session d = elim (Bool-cases (clean && not session.state.last_clean_shutdown)) [
    | inl e ↦ rw e (marked_ended fault session d _)
    | inr e ↦ rw e refl
  ]

  pub close-closed :
      (fault : Stage → Bool) (clean : Bool) (session : StateSession) (root : Root Bytes)
      → session.is_closed ≡ true
      → session_close codec fault clean session root ≡ (ok tt, session, root)
  unfolding session_close
  close-closed fault clean session root h =
      let o = close_files codec fault clean session (root.files session.native_save.identity) in
      ap
        (λ (b : Bool).
          if b
          then (ok tt, session, root)
          else (o.0, o.1, release (put_files session.native_save.identity o.2 root)))
        h

  -- what closing an open session does
  pub close-open :
      (fault : Stage → Bool) (clean : Bool) (session : StateSession) (root : Root Bytes)
      → session.is_closed ≡ false
      → session_close codec fault clean session root ≡ (
        (close_files codec fault clean session (root.files session.native_save.identity)).0,
        (close_files codec fault clean session (root.files session.native_save.identity)).1,
        release (
            put_files session.native_save.identity
              (close_files codec fault clean session (root.files session.native_save.identity)).2
              root),
      )
  unfolding session_close
  close-open fault clean session root h =
      let o = close_files codec fault clean session (root.files session.native_save.identity) in
      ap
        (λ (b : Bool).
          if b
          then (ok tt, session, root)
          else (o.0, o.1, release (put_files session.native_save.identity o.2 root)))
        h

  acquire-release :
      (root : Root Bytes) → acquire true (release root) ≡ (ok tt, record root { locked = true })
  unfolding acquire release
  acquire-release root = refl

  -- Closing an open session ends it, whatever the fault and whether the commit in it returns or
  -- raises, and leaves a directory whose lease the next opening takes, if the operating system
  -- grants its lock.
  pub session_close-acquire :
      (fault : Stage → Bool) (clean : Bool) (session : StateSession) (root : Root Bytes)
      → session.is_closed ≡ false
      → ((session_close codec fault clean session root).1.is_closed ≡ true)
        × (acquire true (session_close codec fault clean session root).2
            ≡ (ok tt, record (session_close codec fault clean session root).2 { locked = true }))
  unfolding release put_files
  session_close-acquire fault clean session root h =
      let identity = session.native_save.identity in
      let o = close_files codec fault clean session (root.files identity) in
      subst
        (λ (q : Result (Unit {0}) × StateSession × Root Bytes).
          (q.1.is_closed ≡ true) × (acquire true q.2 ≡ (ok tt, record q.2 { locked = true })))
        (sym (close-open fault clean session root h))
        (
          ended fault clean session (root.files identity),
          acquire-release (put_files identity o.2 root),
        )

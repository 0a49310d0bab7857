-- ===== src/Repository/Session/Shutdown.antt =====
-- What a clean `StateSession.close` of worlds/jak3/persistence.py leaves.
use jak3_ap.Prelude.{
  ◌+◌, ◌≡◌, refl, ap, ◌∙◌, sym, String, Bool, true, false, none, Result, ok, err, ◌⊎◌, inl, inr,
  subst, ◌&&◌, not, ok-injective, >>-eq-ok, >>=-eq-ok, if◌then◌else◌,
}
use text.Mathlib.TextPositions.{eq_refl}
use jak3_ap.Persistence.State.{PersistentState}
use jak3_ap.Persistence.Identity.{Platform}
use jak3_ap.Persistence.Validate.{validate_state, post_init}
use jak3_ap.Repository.{Codec, Disk, Stage, commit}
use jak3_ap.Repository.Held.{Held}
use jak3_ap.Repository.Returned.{commit-ok, commit-Held}
use jak3_ap.Repository.Session.{
  Root, StateSession, Outcome, keep_committed, commit_checked, session_commit, check_session_commit,
  shut, close_marked, close_files, session_close, release, put_files,
}
use jak3_ap.Repository.Session.Ends.{close-open, ended}

-- the state, marked as cleanly shut down, at the next revision
abbrev pub shut_down : PersistentState → PersistentState
shut_down s = record s { last_clean_shutdown = true; state_revision = s.state_revision + 1 }

put_same :
    {B : Type 0} (identity : String) (d : Disk B) (root : Root B)
    → (put_files identity d root).files identity ≡ d
unfolding put_files
put_same identity d root = rw (eq_refl identity) refl

module _ {p : Platform} (codec : Codec p) where
  open codec use {Bytes}

  -- The session has ended, its state has the mark of a clean shutdown, which is committed unless it
  -- was there before, and the file holds that state.
  pub record ShutDown (session ended : StateSession) (disk : Disk Bytes) : Type 0 where
    pub closed : ended.is_closed ≡ true
    pub mark : ended.state.last_clean_shutdown ≡ true
    pub state_is :
        ((session.state.last_clean_shutdown ≡ true) × (ended.state ≡ session.state))
        ⊎ ((session.state.last_clean_shutdown ≡ false) × (ended.state ≡ shut_down session.state))
    pub held : Held codec ended.state disk

  -- what a commit that returns leaves in the session and in the file
  kept-Held :
      (session : StateSession) (q : Result PersistentState × Disk Bytes) (n : PersistentState)
      → ((c : PersistentState) → q.0 ≡ ok c → (n ≡ c) × Held codec c q.1)
      → (c : PersistentState) → (keep_committed codec session q).0 ≡ ok c
      → ((keep_committed codec session q).1.state ≡ n)
        × Held codec n (keep_committed codec session q).2
  unfolding keep_committed
  kept-Held session (err e, d) n f c h = cc
  kept-Held session (ok s, d) n f c h =
      let (same, held) = f s refl in
      (sym same, subst (λ (t : PersistentState). Held codec t d) (sym same) held)

  commit-Kept :
      (fault : Stage → Bool) (s : PersistentState) (session : StateSession) (d : Disk Bytes)
      (c : PersistentState)
      → (session_commit codec fault s session d).0 ≡ ok c
      → ((session_commit codec fault s session d).1.state
          ≡ record s { state_revision = session.state.state_revision + 1 })
        × Held codec
            (record s { state_revision = session.state.state_revision + 1 })
            (session_commit codec fault s session d).2
  unfolding session_commit commit_checked
  commit-Kept fault s session d c h = checked (check_session_commit codec s session) h
    where
      next : PersistentState
      next = record s { state_revision = session.state.state_revision + 1 }

      checked :
          (r : Result (Unit {0}))
          → (commit_checked codec fault s session d r).0 ≡ ok c
          → ((commit_checked codec fault s session d r).1.state ≡ next)
            × Held codec next (commit_checked codec fault s session d r).2
      checked (err e) h = cc
      checked (ok t) h =
          let n = session.state.state_revision in
          kept-Held session (commit codec fault s n d) next
            (λ c q. (commit-ok codec fault s n d c q, commit-Held codec fault s n d c q)) c h

  -- the state is the one to be shut down, and the file holds it
  abbrev Kept : StateSession → Outcome codec (Unit {0}) → Type 0
  Kept session o = (o.1.state ≡ shut_down session.state) × Held codec (shut_down session.state) o.2

  shut-Kept :
      (fault : Stage → Bool) (session : StateSession) (d : Disk Bytes) (s : PersistentState)
      → record session.state { last_clean_shutdown = true } ≡ s
      → (shut codec (session_commit codec fault s session d)).0 ≡ ok tt
      → Kept session (shut codec (session_commit codec fault s session d))
  unfolding shut
  shut-Kept fault session d s same h =
      let (c, q, _) = >>=-eq-ok (session_commit codec fault s session d).0 _ h in
      let (state, held) = commit-Kept fault s session d c q in
      let next =
        ap (λ (t : PersistentState). record t { state_revision = session.state.state_revision + 1 })
          (sym same) in
      (
        state ∙ next,
        subst (λ (t : PersistentState). Held codec t (session_commit codec fault s session d).2)
            next held,
      )

  marked-Kept :
      (fault : Stage → Bool) (session : StateSession) (d : Disk Bytes) (r : Result PersistentState)
      → post_init p (record session.state { last_clean_shutdown = true }) ≡ r
      → (close_marked codec fault session d r).0 ≡ ok tt
      → Kept session (close_marked codec fault session d r)
  unfolding close_marked post_init
  marked-Kept fault session d (err e) q h = cc
  marked-Kept fault session d (ok s) q h =
      let (_, same) =
        >>-eq-ok (validate_state p (record session.state { last_clean_shutdown = true }) none none)
          _ q in
      shut-Kept fault session d s (ok-injective same) h

  files-ShutDown :
      (fault : Stage → Bool) (session : StateSession) (d : Disk Bytes)
      → Held codec session.state d
      → (close_files codec fault true session d).0 ≡ ok tt
      → ShutDown session
          (close_files codec fault true session d).1
          (close_files codec fault true session d).2
  unfolding close_files
  files-ShutDown fault session d held h =
      let (mark, state_is, after) = by_mark session.state.last_clean_shutdown refl h in
      record {
        closed = ended codec fault true session d;
        mark = mark;
        state_is = state_is;
        held = after;
      }
    where
      chosen : Bool → Outcome codec (Unit {0})
      chosen b =
          if true && not b
          then close_marked codec fault session d
              (post_init p (record session.state { last_clean_shutdown = true }))
          else (ok tt, record session { is_closed = true }, d)

      by_mark :
          (b : Bool)
          → session.state.last_clean_shutdown ≡ b
          → (chosen b).0 ≡ ok tt
          → ((chosen b).1.state.last_clean_shutdown ≡ true)
            × (((session.state.last_clean_shutdown ≡ true) × ((chosen b).1.state ≡ session.state))
                ⊎ ((session.state.last_clean_shutdown ≡ false)
                    × ((chosen b).1.state ≡ shut_down session.state)))
            × Held codec (chosen b).1.state (chosen b).2
      by_mark true m h = (m, inl (m, refl), held)
      by_mark false m h =
          let (state, after) = marked-Kept fault session d _ refl h in
          (
            ap (λ (t : PersistentState). t.last_clean_shutdown) state,
            inr (m, state),
            subst (λ (t : PersistentState). Held codec t (chosen false).2) (sym state) after,
          )

  -- what a clean close that returns leaves of a session in step with its file
  pub session_close-ShutDown :
      (fault : Stage → Bool) (session : StateSession) (root : Root Bytes)
      → session.is_closed ≡ false
      → Held codec session.state (root.files session.native_save.identity)
      → (session_close codec fault true session root).0 ≡ ok tt
      → ShutDown session
          (session_close codec fault true session root).1
          ((session_close codec fault true session root).2.files session.native_save.identity)
  unfolding release
  session_close-ShutDown fault session root opened held h =
      let identity = session.native_save.identity in
      let o = close_files codec fault true session (root.files identity) in
      let closing = close-open codec fault true session root opened in
      subst
        (λ (q : Result (Unit {0}) × StateSession × Root Bytes).
          ShutDown session q.1 (q.2.files identity))
        (sym closing)
        (subst (ShutDown session o.1) (sym (put_same identity o.2 root)) (
          files-ShutDown fault session (root.files identity) held
            (ap (λ (q : Result (Unit {0}) × StateSession × Root Bytes). q.0) (sym closing) ∙ h)))

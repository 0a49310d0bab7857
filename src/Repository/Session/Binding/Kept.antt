-- ===== src/Repository/Session/Binding/Kept.antt =====
-- The slot binding of a session's state does not change once it is there.
use jak3_ap.Prelude.{
  require-ok, ℕ, ◌+◌, ◌≡◌, refl, ◌∙◌, sym, arith, Bool, true, false, Option, none, some, Result, ok,
  err, ok-injective, subst, require, binding, closed, not, >>-eq-ok, >>=-eq-ok, Bool-cases, inl,
  inr, ◌&&◌,
}
use jak3_ap.Persistence.State.{AuthenticatedSlot, PersistentState}
use jak3_ap.Persistence.Identity.{Platform, is_bound}
use jak3_ap.Persistence.Create.{bind_as, bind}
use jak3_ap.Repository.Session.Ends.{close-closed, close-open}
use jak3_ap.Repository.{Codec, Disk, Stage, commit}
use jak3_ap.Repository.Session.{
  Root, StateSession, same_binding, keep_committed, commit_checked, session_commit,
  check_session_commit, bound_to, bound_state, keep_bound, Outcome, bind_checked, session_bind,
  shut, close_marked, close_files, session_close,
}
use jak3_ap.Repository.Returned.{commit-ok}
use jak3_ap.Repository.Session.Binding.{
  SameBinding, unmoved, joined, is_bound_same, with_revision, same_binding_lem,
}

module _ {p : Platform} (codec : Codec p) where
  open codec use {Bytes}

  checked-SameBinding :
      (s : PersistentState) (session : StateSession)
      → check_session_commit codec s session ≡ ok tt
      → SameBinding s session.state
  unfolding check_session_commit
  checked-SameBinding s session h =
      let (_, r1) = >>-eq-ok _ _ h in
      let (_, r2) = >>-eq-ok _ _ r1 in
      let (same, _) = >>-eq-ok (require (same_binding s session.state) binding) _ r2 in
      same_binding_lem s session.state (require-ok _ binding same)

  kept-SameBinding :
      (s : PersistentState) (session : StateSession) (n : ℕ)
      (q : Result PersistentState × Disk Bytes)
      → SameBinding s session.state
      → ((c : PersistentState) → q.0 ≡ ok c → record s { state_revision = n + 1 } ≡ c)
      → SameBinding (keep_committed codec session q).1.state session.state
  unfolding keep_committed
  kept-SameBinding s session n (err e, d) b h = unmoved session.state
  kept-SameBinding s session n (ok c, d) b h =
      subst (λ (t : PersistentState). SameBinding t session.state) (h c refl)
        (with_revision s session.state (n + 1) b)

  commit-SameBinding :
      (fault : Stage → Bool) (s : PersistentState) (session : StateSession) (d : Disk Bytes)
      → SameBinding (session_commit codec fault s session d).1.state session.state
  unfolding session_commit commit_checked
  commit-SameBinding fault s session d = checked (check_session_commit codec s session) refl
    where
      checked :
          (r : Result (Unit {0}))
          → check_session_commit codec s session ≡ r
          → SameBinding (commit_checked codec fault s session d r).1.state session.state
      checked (err e) h = unmoved session.state
      checked (ok tt) h =
          let n = session.state.state_revision in
          kept-SameBinding s session n (commit codec fault s n d) (checked-SameBinding s session h)
            (commit-ok codec fault s n d)

  bind_as-bound :
      (s : PersistentState) (a : AuthenticatedSlot) (was : Bool) (bound : PersistentState)
      → was ≡ true
      → bind_as p s a was ≡ ok bound
      → bound ≡ s
  unfolding bind_as
  bind_as-bound s a true bound w h = sym (ok-injective (>>-eq-ok _ _ h).1)
  bind_as-bound s a false bound w h = cc

  -- binding a state that is bound already gives the state back
  bind-bound :
      (s : PersistentState) (a : AuthenticatedSlot) (bound : PersistentState)
      → is_bound s ≡ ok true
      → bind p s a ≡ ok bound
      → bound ≡ s
  unfolding bind
  bind-bound s a bound h e =
      let (was, w, r) = >>=-eq-ok (is_bound s) (bind_as p s a) e in
      bind_as-bound s a was bound (ok-injective (sym w ∙ h)) r

  bound_to-some :
      (a : AuthenticatedSlot) (session : StateSession) (bound s : PersistentState)
      → bound_to codec a session bound ≡ ok (some s)
      → bound ≡ s
  unfolding bound_to
  bound_to-some a session bound s h = ground arith

  bound_state-SameBinding :
      (a : AuthenticatedSlot) (session : StateSession) (s : PersistentState)
      → is_bound session.state ≡ ok true
      → bound_state codec a session ≡ ok (some s)
      → SameBinding s session.state
  unfolding bound_state
  bound_state-SameBinding a session s h e =
      let (_, r1) = >>-eq-ok (require (not session.is_closed) closed) _ e in
      let (bound, b, r2) = >>=-eq-ok (bind p session.state a) _ r1 in
      subst (λ (t : PersistentState). SameBinding t session.state)
        (sym (bind-bound session.state a bound h b) ∙ bound_to-some a session bound s r2)
        (unmoved session.state)

  state-keep_bound :
      (a : AuthenticatedSlot) (o : Outcome codec PersistentState)
      → (keep_bound codec a o).1.state ≡ o.1.state
  unfolding keep_bound
  state-keep_bound a (err e, session, d) = refl
  state-keep_bound a (ok s, session, d) = refl

  bind-SameBinding :
      (fault : Stage → Bool) (a : AuthenticatedSlot) (session : StateSession) (d : Disk Bytes)
      → is_bound session.state ≡ ok true
      → SameBinding (session_bind codec fault a session d).1.state session.state
  unfolding session_bind bind_checked
  bind-SameBinding fault a session d h = checked (bound_state codec a session) refl
    where
      checked :
          (r : Result (Option PersistentState))
          → bound_state codec a session ≡ r
          → SameBinding (bind_checked codec fault a session d r).1.state session.state
      checked (err e) q = unmoved session.state
      checked (ok none) q = unmoved session.state
      checked (ok (some s)) q =
          let n = session.state.state_revision in
          let committed = commit codec fault s n d in
          subst (λ (t : PersistentState). SameBinding t session.state)
            (sym (state-keep_bound a (keep_committed codec session committed)))
            (kept-SameBinding s session n committed (bound_state-SameBinding a session s h q)
              (commit-ok codec fault s n d))

  marked-SameBinding :
      (fault : Stage → Bool) (session : StateSession) (d : Disk Bytes) (r : Result PersistentState)
      → SameBinding (close_marked codec fault session d r).1.state session.state
  unfolding close_marked shut
  marked-SameBinding fault session d (err e) = unmoved session.state
  marked-SameBinding fault session d (ok s) = commit-SameBinding fault s session d

  files-SameBinding :
      (fault : Stage → Bool) (clean : Bool) (session : StateSession) (d : Disk Bytes)
      → SameBinding (close_files codec fault clean session d).1.state session.state
  unfolding close_files
  files-SameBinding fault clean session d =
      elim (Bool-cases (clean && not session.state.last_clean_shutdown)) [
        | inl e ↦ rw e (marked-SameBinding fault session d _)
        | inr e ↦ rw e (unmoved session.state)
      ]

  close-SameBinding :
      (fault : Stage → Bool) (clean : Bool) (session : StateSession) (root : Root Bytes)
      → SameBinding (session_close codec fault clean session root).1.state session.state
  close-SameBinding fault clean session root = elim (Bool-cases session.is_closed) [
    | inl c ↦ along (sym (close-closed codec fault clean session root c)) (unmoved session.state)
    | inr c ↦
        along (sym (close-open codec fault clean session root c))
          (files-SameBinding fault clean session (root.files session.native_save.identity))
  ]
    where
      along :
          {q q' : Result (Unit {0}) × StateSession × Root Bytes}
          → q ≡ q'
          → SameBinding q.1.state session.state
          → SameBinding q'.1.state session.state
      along = subst (λ (q : Result (Unit {0}) × StateSession × Root Bytes).
          SameBinding q.1.state session.state)

  -- what becomes of a session by one of its methods, whatever the files, the faults and the result
  pub data Method (session : StateSession) : StateSession → Type 0 where
    committing :
        (fault : Stage → Bool) (s : PersistentState) (d : Disk Bytes)
        → Method session (session_commit codec fault s session d).1
    binding_to :
        (fault : Stage → Bool) (a : AuthenticatedSlot) (d : Disk Bytes)
        → Method session (session_bind codec fault a session d).1
    closing :
        (fault : Stage → Bool) (clean : Bool) (root : Root Bytes)
        → Method session (session_close codec fault clean session root).1

  pub data Calls (session : StateSession) : StateSession → Type 0 where
    none_yet : Calls session session
    one_more : {t u : StateSession} → Calls session t → Method t u → Calls session u

  Method-SameBinding :
      {session after : StateSession}
      → Method session after
      → is_bound session.state ≡ ok true
      → SameBinding after.state session.state
  Method-SameBinding {session = session} (committing fault s d) h =
      commit-SameBinding fault s session d
  Method-SameBinding {session = session} (binding_to fault a d) h =
      bind-SameBinding fault a session d h
  Method-SameBinding {session = session} (closing fault clean root) h =
      close-SameBinding fault clean session root

  -- Once the state of a session is bound to a slot, no sequence of commits, bindings and closings,
  -- whatever their arguments, faults and results, changes one of the four fields of the binding.
  pub Calls-SameBinding :
      (session after : StateSession)
      → Calls session after
      → is_bound session.state ≡ ok true
      → SameBinding after.state session.state
  Calls-SameBinding session after none_yet h = unmoved session.state
  Calls-SameBinding session after (one_more {t = t} c m) h =
      let before = Calls-SameBinding session t c h in
      joined (Method-SameBinding m (is_bound_same before h)) before

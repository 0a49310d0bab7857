-- ===== src/Repository/Session/InSync.antt =====
-- A session and the files of its save.
use text.Mathlib.Text.{◌==◌ as str_eq}
use text.Mathlib.TextEquality.{eq_iff}
use jak3_ap.Prelude.{
  require-ok, ◌+◌, ◌≡◌, ◌≢◌, refl, ap, ◌∙◌, sym, subst, Bool, not, some, Result, ok, err, require,
  closed, binding, stale_revision, injected_fault, inl, inr, arith, >>-eq-ok,
}
use jak3_ap.Persistence.State.{PersistentState}
use jak3_ap.Persistence.Identity.{Platform}
use jak3_ap.Persistence.Validate.{validate_state}
use jak3_ap.Repository.{Codec, Disk, Stage, load_state_file, commit}
use jak3_ap.Repository.Commit.{
  Follows, Left, unchanged, written, commit-Left, commit_stale, next_revision,
}
use jak3_ap.Repository.Session.{
  StateSession, same_binding, keep_committed, commit_checked, session_commit, check_session_commit,
  Outcome,
}
use jak3_ap.Repository.Held.{Held, near-same, loads-Held}
use jak3_ap.Repository.Session.Fits.{valid_lem, next_fits}

module _ {p : Platform} (codec : Codec p) where
  open codec use {Bytes, deserialize, canonical, canonical_same}

  -- The primary holds the state of the session, and the state fits the session's save and slot.
  pub record InSync (session : StateSession) (disk : Disk Bytes) : Type 0 where
    pub held : Held codec session.state disk
    pub fits :
        validate_state p session.state (some session.native_save) session.authenticated_slot ≡ ok tt

  -- The session cannot write any more: whatever it commits is stale, and no file changes.
  abbrev pub CannotWrite : StateSession → Disk Bytes → Type 0
  CannotWrite session disk =
      (fault : Stage → Bool) (s : PersistentState)
      → check_session_commit codec s session ≡ ok tt
      → session_commit codec fault s session disk ≡ (err stale_revision, session, disk)

  -- what a commit of a session in step with its files leaves
  pub data SessionLeft (s : PersistentState) (session : StateSession)
      (o : Outcome codec PersistentState) : Type 0 where
    returned :
        o.0 ≡ ok (next_revision s)
        → o.1 ≡ record session { state = next_revision s }
        → InSync o.1 o.2
        → SessionLeft s session o
    undone : o.0 ≡ err injected_fault → o.1 ≡ session → InSync session o.2 → SessionLeft s session o
    overtaken :
        o.0 ≡ err injected_fault
        → o.1 ≡ session
        → load_state_file codec o.2.primary ≡ ok (canonical (next_revision s))
        → CannotWrite session o.2
        → SessionLeft s session o

  module _ (fault : Stage → Bool) (s : PersistentState) (session : StateSession) (disk : Disk Bytes)
      (f : InSync session disk) (checked : check_session_commit codec s session ≡ ok tt)
      (revision : s.state_revision ≡ session.state.state_revision) where
    checks :
        (s.state_instance_id ≡ session.state.state_instance_id)
        × (validate_state p s (some session.native_save) session.authenticated_slot ≡ ok tt)
    unfolding check_session_commit
    checks =
        let (_, r1) = >>-eq-ok (require (not session.is_closed) closed) _ checked in
        let (same, r2) =
          >>-eq-ok
            (require (str_eq s.state_instance_id session.state.state_instance_id) stale_revision) _
            r1 in
        let (_, r3) = >>-eq-ok (require (same_binding s session.state) binding) _ r2 in
        (
          (eq_iff s.state_instance_id session.state.state_instance_id).0
              (require-ok _ stale_revision same),
          r3,
        )

    follows : Follows codec s f.held.current (valid_lem p s _ _ checks.1) disk
    follows =
        let (id, number) = near-same codec session.state f.held.current f.held.near in
        record {
          previous = f.held.previous;
          on_disk = f.held.on_disk;
          holds = f.held.holds;
          same_instance = id ∙ sym checks.0;
          same_revision = number ∙ sym revision;
        }

    overtaken_lem :
        (after : Disk Bytes)
        → load_state_file codec after.primary ≡ ok (canonical (next_revision s))
        → CannotWrite session after
    unfolding session_commit commit_checked keep_committed
    overtaken_lem after loads fault' s' checked' =
        ap (commit_checked codec fault' s' session after) checked'
        ∙ ap (keep_committed codec session) (
            commit_stale codec fault' s' (canonical (next_revision s)) session.state.state_revision
              after loads (inl newer))
      where
        number : (canonical (next_revision s)).state_revision ≡ s.state_revision + 1
        number = unfold next_revision in (canonical_same (next_revision s)).1

        newer : (canonical (next_revision s)).state_revision ≢ session.state.state_revision
        newer e = omega (arith, number, revision)

    along :
        (after : Disk Bytes) {r r' : Result PersistentState}
        → r ≡ r'
        → SessionLeft s session (keep_committed codec session (r', after))
        → SessionLeft s session (keep_committed codec session (r, after))
    along after e =
        subst
          (λ (r : Result PersistentState).
            SessionLeft s session (keep_committed codec session (r, after)))
          (sym e)

    left_lem :
        (r : Result PersistentState) (after : Disk Bytes)
        → Left codec s f.held.current (valid_lem p s _ _ checks.1) r disk after
        → SessionLeft s session (keep_committed codec session (r, after))
    unfolding keep_committed
    left_lem r after (unchanged e loads same) = along after e (
        undone refl refl (record {
          held = record {
            previous = f.held.previous;
            current = f.held.current;
            on_disk = same ∙ f.held.on_disk;
            holds = f.held.holds;
            near = f.held.near;
          };
          fits = f.fits;
        }))
    left_lem r after (written (inl e) loads backup left) = along after e (
        returned refl refl (record {
          held = loads-Held codec after (next_revision s) loads;
          fits = next_fits p s (some session.native_save) session.authenticated_slot checks.1;
        }))
    left_lem r after (written (inr e) loads backup left) =
        along after e (overtaken refl refl loads (overtaken_lem after loads))

    -- A commit that passes the checks of a session in step with its files, of a state of the same
    -- revision, ends in one of three ways. It returns, and the session is in step with its files at
    -- the next revision. Or it is interrupted before the primary is replaced, and session and primary
    -- are as before. Or it is interrupted after that: then the file holds the next revision, and
    -- every later commit of this session that passes its checks is refused as stale, with no file
    -- changed.
    pub session_commit-SessionLeft :
        SessionLeft s session (session_commit codec fault s session disk)
    unfolding session_commit commit_checked
    session_commit-SessionLeft =
        subst (SessionLeft s session) (sym (ap (commit_checked codec fault s session disk) checked))
          (left_lem (commit codec fault s session.state.state_revision disk).0
            (commit codec fault s session.state.state_revision disk).1 left)
      where
        left :
            Left codec s f.held.current
              (valid_lem p s _ _ checks.1)
              (commit codec fault s session.state.state_revision disk).0
              disk
              (commit codec fault s session.state.state_revision disk).1
        left =
            subst
              (λ n.
                Left codec s f.held.current (valid_lem p s _ _ checks.1)
                  (commit codec fault s n disk).0 disk (commit codec fault s n disk).1)
              revision
              (commit-Left codec s f.held.current (valid_lem p s _ _ checks.1) fault disk follows)

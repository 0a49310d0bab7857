-- ===== src/Repository/Session/Open/Begins.antt =====
-- The session that an opening returns.
use jak3_ap.Prelude.{
  ◌≡◌, refl, ◌+◌, ap, ◌∙◌, sym, subst, String, Bool, true, false, Option, some, Result, ok, err,
  ok-injective, ok-not-err, ◌>>=◌, if◌then◌else◌,
}
use jak3_ap.Persistence.State.{NativeSaveDescriptor, AuthenticatedSlot, PersistentState}
use jak3_ap.Persistence.Identity.{Platform}
use jak3_ap.Persistence.Validate.{validate_state}
use jak3_ap.Repository.{Codec, Disk, Stage, StateOpenStatus, commit, quarantine_orphan_temps}
use jak3_ap.Repository.Held.{Held}
use jak3_ap.Repository.Returned.{commit-ok, commit-Held}
use jak3_ap.Repository.Open.Holds.{load_or_create-Held}
use jak3_ap.Repository.Session.{Root, put_files, StateSession}
use jak3_ap.Repository.Session.Fits.{marked_fits}
use jak3_ap.Repository.Session.InSync.{InSync}
use jak3_ap.Repository.Session.Open.Lock.{opened}
use text.Mathlib.TextPositions.{eq_refl}
use jak3_ap.Repository.Session.Open.{
  Opening, run_check, session_of, finish_open, commit_opening, opening_of, after_preflight,
  open_files, settle_open, open_session,
}
use jak3_ap.Repository.Session.Open.Ready.{IsReady, opening-IsReady}

module _ {p : Platform} (codec : Codec p) (fault : Stage → Bool)
    (authorization : Option (Result (Unit {0}))) (native_save : NativeSaveDescriptor)
    (slot : Option AuthenticatedSlot) where
  open codec use {Bytes}

  -- the new session, in step with its files
  pub record IsBegun (session : StateSession) (d : Disk Bytes) : Type 0 where
    pub in_sync : InSync codec session d
    pub save : session.native_save ≡ native_save
    pub authenticated : session.authenticated_slot ≡ slot
    pub unclean : session.state.last_clean_shutdown ≡ false
    pub authorized : session.binding_performed ≡ true → run_check authorization ≡ ok tt

  quarantined-Held :
      (s : PersistentState) (d : Disk Bytes)
      → Held codec s d
      → Held codec s (quarantine_orphan_temps d)
  unfolding quarantine_orphan_temps
  quarantined-Held s d h = record {
    previous = h.previous;
    current = h.current;
    on_disk = h.on_disk;
    holds = h.holds;
    near = h.near;
  }

  of-IsBegun :
      (o : Opening) (s : PersistentState) (d : Disk Bytes)
      → Held codec s d
      → validate_state p s (some native_save) slot ≡ ok tt
      → s.last_clean_shutdown ≡ false
      → (o.binding_performed ≡ true → run_check authorization ≡ ok tt)
      → IsBegun
          (session_of codec fault authorization native_save slot o s)
          (quarantine_orphan_temps d)
  unfolding session_of
  of-IsBegun o s d h v c a = record {
    in_sync = record { held = quarantined-Held s d h; fits = v };
    save = refl;
    authenticated = refl;
    unclean = c;
    authorized = a;
  }

  abbrev Begins : Result StateSession × Disk Bytes → Type 0
  Begins q = (session : StateSession) → q.0 ≡ ok session → IsBegun session q.1

  finish-Begins :
      (o : Opening) (q : Result PersistentState × Disk Bytes)
      → ((c : PersistentState)
          → q.0 ≡ ok c
          → Held codec c q.1
            × (validate_state p c (some native_save) slot ≡ ok tt)
            × (c.last_clean_shutdown ≡ false))
      → (o.binding_performed ≡ true → run_check authorization ≡ ok tt)
      → Begins (finish_open codec fault authorization native_save slot o q)
  unfolding finish_open
  finish-Begins o (err e, d) f a session h = cc
  finish-Begins o (ok c, d) f a session h =
      let (held, fits, unclean) = f c refl in
      subst (λ (t : StateSession). IsBegun t (quarantine_orphan_temps d)) (ok-injective h)
        (of-IsBegun o c d held fits unclean a)

  commit-Begins :
      (s : PersistentState) (d : Disk Bytes) (r : Result Opening)
      → Held codec s d
      → ((o : Opening) → r ≡ ok o → IsReady codec fault authorization native_save slot s o)
      → Begins (commit_opening codec fault authorization native_save slot d r)
  unfolding commit_opening
  commit-Begins s d (err e) held f session h = cc
  commit-Begins s d (ok o) held f session h = by_change o.changed refl session h
    where
      by_change :
          (b : Bool)
          → o.changed ≡ b
          → Begins (
              finish_open codec fault authorization native_save slot o (
                if b then commit codec fault o.state o.state.state_revision d else (ok o.state, d)))
      by_change true e =
          finish-Begins o _
            (λ c h.
              let same = commit-ok codec fault o.state o.state.state_revision d c h in
              let ready = f o refl in
              (
                commit-Held codec fault o.state o.state.state_revision d c h,
                subst (λ (t : PersistentState). validate_state p t (some native_save) slot ≡ ok tt)
                    same
                    (marked_fits p o.state (o.state.state_revision + 1) o.state.last_clean_shutdown
                      (some native_save) slot ready.fits),
                subst (λ (t : PersistentState). t.last_clean_shutdown ≡ false) same ready.unclean,
              ))
            (f o refl).authorized
      by_change false e =
          finish-Begins o _
            (λ c h.
              let ready = f o refl in
              let same = ok-injective h in
              (
                subst (λ (t : PersistentState). Held codec t d) (sym (ready.unchanged e) ∙ same)
                    held,
                subst (λ (t : PersistentState). validate_state p t (some native_save) slot ≡ ok tt)
                    same ready.fits,
                subst (λ (t : PersistentState). t.last_clean_shutdown ≡ false) same ready.unclean,
              ))
            (f o refl).authorized

  loaded-Begins :
      (loaded : Result (PersistentState × StateOpenStatus)) (d : Disk Bytes)
      → ((s : PersistentState) (status : StateOpenStatus)
          → loaded ≡ ok (s, status)
          → Held codec s d)
      → Begins (
          commit_opening codec fault authorization native_save slot d
            (loaded >>= opening_of codec fault authorization native_save slot))
  loaded-Begins (err e) d f session h = unfold commit_opening in cc
  loaded-Begins (ok (s, status)) d f session h =
      commit-Begins s d _ (f s status refl)
        (opening-IsReady codec fault authorization native_save slot s status) session h

  preflight-Begins :
      (id : String) (d : Disk Bytes) (r : Result (Unit {0}))
      → Begins (after_preflight codec fault authorization native_save slot id d r)
  unfolding after_preflight
  preflight-Begins id d (err e) session h = cc
  preflight-Begins id d (ok tt) session h =
      loaded-Begins _ _ (load_or_create-Held codec native_save slot id d) session h

  files-Begins :
      (id : String) (d : Disk Bytes)
      → Begins (open_files codec fault authorization native_save slot id d)
  unfolding open_files
  files-Begins id d = preflight-Begins id d _

  put-files :
      (identity : String) (d : Disk Bytes) (root : Root Bytes)
      → (put_files identity d root).files identity ≡ d
  unfolding put_files
  put-files identity d root = rw (eq_refl identity) refl

  settle-Begins :
      (root root' : Root Bytes) (q : Result StateSession × Disk Bytes) (session : StateSession)
      → Begins q
      → settle_open codec fault authorization native_save slot root q ≡ (ok session, root')
      → IsBegun session (root'.files native_save.identity)
  unfolding settle_open
  settle-Begins root root' (err e, d) session b h =
      absurd (ok-not-err (sym (ap (λ (t : Result StateSession × Root Bytes). t.0) h)))
  settle-Begins root root' (ok begun, d) session b h =
      subst (IsBegun session)
        (sym (put-files native_save.identity d root)
          ∙ ap (λ (t : Result StateSession × Root Bytes). t.1.files native_save.identity) h)
        (b session (ap (λ (t : Result StateSession × Root Bytes). t.0) h))

  -- An opening that succeeds, whatever it had to recover, create, bind or commit, returns a session
  -- of the save and the slot that it was given, whose state the primary file holds and which fits
  -- them; the flag of a clean shutdown is down, so that a crash from here on can be told. If the opening
  -- has bound the state, the authorization check, where there was one, has passed.
  pub open_session-IsBegun :
      (granted : Bool) (id : String) (root root' : Root Bytes) (session : StateSession)
      → open_session codec fault authorization native_save slot granted id root
        ≡ (ok session, root')
      → IsBegun session (root'.files native_save.identity)
  open_session-IsBegun granted id root root' session h =
      settle-Begins (record root { locked = true }) root' _ session
        (files-Begins id (root.files native_save.identity))
        (opened codec fault authorization native_save slot granted id root root' session h).1

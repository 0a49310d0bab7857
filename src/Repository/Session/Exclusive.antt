-- ===== src/Repository/Session/Exclusive.antt =====
-- At most one session of a process is open.
use jak3_ap.Prelude.{
  ◌+◌, ◌≤◌, ◌≡◌, refl, ap, ◌∙◌, sym, String, Bool, true, false, List, [], ◌∷◌, ◌++◌, Result,
  Bool-cases, inl, inr, subst, arith,
}
use jak3_ap.Persistence.State.{PersistentState}
use jak3_ap.Persistence.Identity.{Platform}
use jak3_ap.Repository.{Codec, Disk, Stage}
use jak3_ap.Repository.Session.{
  Root, put_files, release, StateSession, close_files, session_close, Outcome,
}
use jak3_ap.Repository.Session.Open.Lock.{open_locks, refuse_locks}
use jak3_ap.Repository.Session.Ends.{
  commit-is_closed, bind-is_closed, ended, close-closed, close-open,
}
use jak3_ap.Repository.Session.System.{
  System, open_count, lock_count, Step, Reach, opens, refuses, commits, binds, closes, start, later,
}

lock_count_le : (locked : Bool) → lock_count locked ≤ 1
unfolding lock_count
lock_count_le true = omega arith
lock_count_le false = omega arith

-- replacing one session changes the count as its own flag changes
replace_count :
    (before : List StateSession) (s t : StateSession) (after : List StateSession)
    → s.is_closed ≡ t.is_closed
    → open_count (before ++ t ∷ after) ≡ open_count (before ++ s ∷ after)
unfolding open_count
replace_count [] s t after h = rw h refl
replace_count (b ∷ before) s t after h = rw (replace_count before s t after h) refl

close_count :
    (before : List StateSession) (s t : StateSession) (after : List StateSession)
    → s.is_closed ≡ false
    → t.is_closed ≡ true
    → open_count (before ++ s ∷ after) ≡ 1 + open_count (before ++ t ∷ after)
unfolding open_count
close_count [] s t after h g = rw (h, g) refl
close_count (b ∷ before) s t after h g = let rest = close_count before s t after h g in ground arith

module _ {p : Platform} (codec : Codec p) where
  open codec use {Bytes}

  abbrev IsExclusive : System Bytes → Type 0
  IsExclusive x = open_count x.sessions ≡ lock_count x.root.locked

  put-locked :
      (identity : String) (d : Disk Bytes) (root : Root Bytes)
      → (put_files identity d root).locked ≡ root.locked
  unfolding put_files
  put-locked identity d root = refl

  kept :
      (x : System Bytes) (before : List StateSession) (session : StateSession)
      (after : List StateSession) (session' : StateSession) (identity : String) (d : Disk Bytes)
      → x.sessions ≡ before ++ session ∷ after
      → session'.is_closed ≡ session.is_closed
      → IsExclusive x
      → IsExclusive
          (record { root = put_files identity d x.root; sessions = before ++ session' ∷ after })
  kept x before session after session' identity d e c h =
      replace_count before session session' after (sym c)
      ∙ ap open_count (sym e)
      ∙ h
      ∙ ap lock_count (sym (put-locked identity d x.root))

  closed_kept :
      (x : System Bytes) (before : List StateSession) (session : StateSession)
      (after : List StateSession)
      → x.sessions ≡ before ++ session ∷ after
      → session.is_closed ≡ false
      → IsExclusive x
      → (session' : StateSession) (root : Root Bytes) → session'.is_closed ≡ true
      → root.locked ≡ false
      → IsExclusive (record { root = root; sessions = before ++ session' ∷ after })
  unfolding lock_count
  closed_kept x before session after e c h session' root c' l =
      let counted = close_count before session session' after c c' in
      let all = ap open_count e in let bound = lock_count_le x.root.locked in rw l (omega arith)

  closes-IsExclusive :
      (fault : Stage → Bool) (clean : Bool) (x : System Bytes) (before : List StateSession)
      (session : StateSession) (after : List StateSession)
      → x.sessions ≡ before ++ session ∷ after
      → IsExclusive x
      → IsExclusive (record {
        root = (session_close codec fault clean session x.root).2;
        sessions = before ++ (session_close codec fault clean session x.root).1 ∷ after;
      })
  closes-IsExclusive fault clean x before session after e h = elim (Bool-cases session.is_closed) [
    | inl c ↦
        along (sym (close-closed codec fault clean session x.root c)) (ap open_count (sym e) ∙ h)
    | inr c ↦
        let identity = session.native_save.identity in
        let o = close_files codec fault clean session (x.root.files identity) in
        along (sym (close-open codec fault clean session x.root c)) (
          closed_kept x before session after e c h o.1 (release (put_files identity o.2 x.root))
            (ended codec fault clean session (x.root.files identity)) (unfold release in refl))
  ]
    where
      along :
          {q q' : Result (Unit {0}) × StateSession × Root Bytes}
          → q ≡ q'
          → IsExclusive (record { root = q.2; sessions = before ++ q.1 ∷ after })
          → IsExclusive (record { root = q'.2; sessions = before ++ q'.1 ∷ after })
      along = subst (λ (q : Result (Unit {0}) × StateSession × Root Bytes).
          IsExclusive (record { root = q.2; sessions = before ++ q.1 ∷ after }))

  Step-IsExclusive : {x y : System Bytes} → Step codec x y → IsExclusive x → IsExclusive y
  unfolding open_count lock_count
  Step-IsExclusive {x = x} (opens fault authorization native_save slot granted id session root e)
        h =
      let (free, held, begun) =
        open_locks codec fault authorization native_save slot granted id x.root root session e in
      rw (begun, held) (ap (λ n. 1 + n) (h ∙ ap lock_count free))
  Step-IsExclusive {x = x} (refuses fault authorization native_save slot granted id raised root e)
        h =
      h
      ∙ ap lock_count (
          sym (
            refuse_locks codec fault authorization native_save slot granted id x.root root raised
              e))
  Step-IsExclusive {x = x} (commits fault s before session after r session' disk e c) h =
      kept x before session after session' session.native_save.identity disk e
        (ap (λ (q : Outcome codec PersistentState). q.1.is_closed) (sym c)
          ∙ commit-is_closed codec fault s session (x.root.files session.native_save.identity))
        h
  Step-IsExclusive {x = x} (binds fault slot before session after r session' disk e c) h =
      kept x before session after session' session.native_save.identity disk e
        (ap (λ (q : Outcome codec PersistentState). q.1.is_closed) (sym c)
          ∙ bind-is_closed codec fault slot session (x.root.files session.native_save.identity))
        h
  Step-IsExclusive {x = x} (closes fault clean before session after r session' root e c) h =
      subst
        (λ (q : Result (Unit {0}) × StateSession × Root Bytes).
          IsExclusive (record { root = q.2; sessions = before ++ q.1 ∷ after }))
        c (closes-IsExclusive fault clean x before session after e h)

  Reach-IsExclusive :
      {files : String → Disk Bytes} {x : System Bytes} → Reach codec files x → IsExclusive x
  unfolding open_count lock_count
  Reach-IsExclusive start = refl
  Reach-IsExclusive (later r s) = Step-IsExclusive s (Reach-IsExclusive r)

-- Whatever sequence of openings, commits, bindings and closings a process performs over a state
-- directory that it did not hold, and however each of them ends, at most one of its sessions is
-- open, and one is just while the directory is locked.
pub Reach-open_count :
    {p : Platform} (codec : Codec p) (files : String → Disk (Codec.Bytes codec))
    (x : System (Codec.Bytes codec))
    → Reach codec files x
    → (open_count x.sessions ≤ 1) × (open_count x.sessions ≡ lock_count x.root.locked)
Reach-open_count codec files x r =
    let h = Reach-IsExclusive codec r in let bound = lock_count_le x.root.locked in (rw h bound, h)

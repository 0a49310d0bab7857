-- ===== src/Repository/Session/Open/Lock.antt =====
-- Opening a session and the writer lease.
use jak3_ap.Prelude.{
  ◌≡◌, ap, ◌∙◌, sym, String, Bool, true, false, Option, Result, ok, err, Error, writer_locked, ◌⊎◌,
  if◌then◌else◌, ok-injective, ok-not-err, Bool-cases, inl, inr,
}
use jak3_ap.Persistence.State.{NativeSaveDescriptor, AuthenticatedSlot, PersistentState}
use jak3_ap.Persistence.Identity.{Platform}
use jak3_ap.Repository.{Codec, Disk, Stage}
use jak3_ap.Repository.Session.{Root, put_files, acquire, release, StateSession}
use jak3_ap.Repository.Session.Open.{
  Opening, session_of, finish_open, commit_opening, after_preflight, open_files, settle_open,
  open_leased, open_session,
}

acquire_cases :
    {B : Type 0} (granted : Bool) (root : Root B)
    → ((root.locked ≡ true) × (acquire granted root ≡ (err writer_locked, root)))
      ⊎ ((root.locked ≡ false)
          × ((acquire granted root ≡ (ok tt, record root { locked = true }))
              ⊎ (acquire granted root ≡ (err writer_locked, record root { locked = false }))))
unfolding acquire
acquire_cases {B = B} granted root = elim (Bool-cases root.locked) [
  | inl e ↦ inl (e, ap answer e)
  | inr e ↦ elim (Bool-cases granted) [
    | inl g ↦ inr (e, inl (ap answer e ∙ ap free_answer g))
    | inr g ↦ inr (e, inr (ap answer e ∙ ap free_answer g))
  ]
]
  where
    free_answer : Bool → Result (Unit {0}) × Root B
    free_answer b =
        if b
        then (ok tt, record root { locked = true })
        else (err writer_locked, record root { locked = false })

    answer : Bool → Result (Unit {0}) × Root B
    answer b = if b then (err writer_locked, root) else free_answer granted

module _ {p : Platform} (codec : Codec p) (fault : Stage → Bool)
    (authorization : Option (Result (Unit {0}))) (native_save : NativeSaveDescriptor)
    (slot : Option AuthenticatedSlot) where
  open codec use {Bytes}

  -- a session that opens, is open, and belongs to the save
  abbrev Begun : Result StateSession × Disk Bytes → Type 0
  Begun q = (session : StateSession) → q.0 ≡ ok session → session.is_closed ≡ false

  finish-Begun :
      (o : Opening) (q : Result PersistentState × Disk Bytes)
      → Begun (finish_open codec fault authorization native_save slot o q)
  unfolding finish_open session_of
  finish-Begun o (err e, d) session h = cc
  finish-Begun o (ok s, d) session h = sym (ap (λ (t : StateSession). t.is_closed) (ok-injective h))

  commit-Begun :
      (d : Disk Bytes) (r : Result Opening)
      → Begun (commit_opening codec fault authorization native_save slot d r)
  unfolding commit_opening
  commit-Begun d (err e) session h = cc
  commit-Begun d (ok o) session h = finish-Begun o _ session h

  preflight-Begun :
      (id : String) (d : Disk Bytes) (r : Result (Unit {0}))
      → Begun (after_preflight codec fault authorization native_save slot id d r)
  unfolding after_preflight
  preflight-Begun id d (err e) session h = cc
  preflight-Begun id d (ok checked) session h = commit-Begun _ _ session h

  files-Begun :
      (id : String) (d : Disk Bytes)
      → Begun (open_files codec fault authorization native_save slot id d)
  unfolding open_files
  files-Begun id d = preflight-Begun id d _

  settle_ok :
      (root : Root Bytes) (q : Result StateSession × Disk Bytes) (session : StateSession)
      (root' : Root Bytes)
      → Begun q
      → settle_open codec fault authorization native_save slot root q ≡ (ok session, root')
      → (root'.locked ≡ root.locked) × (session.is_closed ≡ false)
  unfolding settle_open put_files
  settle_ok root (err e, d) session root' b h =
      absurd (ok-not-err (sym (ap (λ (t : Result StateSession × Root Bytes). t.0) h)))
  settle_ok root (ok begun, d) session root' b h = (
    sym (ap (λ (t : Result StateSession × Root Bytes). t.1.locked) h),
    b session (ap (λ (t : Result StateSession × Root Bytes). t.0) h),
  )

  settle_err :
      (root : Root Bytes) (q : Result StateSession × Disk Bytes) (e : Error) (root' : Root Bytes)
      → settle_open codec fault authorization native_save slot root q ≡ (err e, root')
      → root'.locked ≡ false
  unfolding settle_open put_files release
  settle_err root (err e', d) e root' h =
      sym (ap (λ (t : Result StateSession × Root Bytes). t.1.locked) h)
  settle_err root (ok begun, d) e root' h =
      absurd (ok-not-err (ap (λ (t : Result StateSession × Root Bytes). t.0) h))

  leased :
      {r : Result StateSession × Root Bytes} (granted : Bool) (id : String) (root : Root Bytes)
      (l : Result (Unit {0}) × Root Bytes)
      → acquire granted root ≡ l
      → open_session codec fault authorization native_save slot granted id root ≡ r
      → open_leased codec fault authorization native_save slot id l ≡ r
  unfolding open_session
  leased granted id root l e h =
      sym (ap (open_leased codec fault authorization native_save slot id) e) ∙ h

  -- an opening that succeeds has found the lease free, and opens the files under it
  pub opened :
      (granted : Bool) (id : String) (root root' : Root Bytes) (session : StateSession)
      → open_session codec fault authorization native_save slot granted id root
        ≡ (ok session, root')
      → (root.locked ≡ false)
        × (settle_open codec fault authorization native_save slot
              (record root { locked = true })
              (open_files codec fault authorization native_save slot id
                (root.files native_save.identity))
            ≡ (ok session, root'))
  opened granted id root root' session h = elim (acquire_cases granted root) [
    | inl (l, e) ↦ absurd (no_lease _ (leased granted id root _ e h))
    | inr (l, inl e) ↦ (l, unfold open_leased in leased granted id root _ e h)
    | inr (l, inr e) ↦ absurd (no_lease _ (leased granted id root _ e h))
  ]
    where
      no_lease :
          (before : Root Bytes)
          → ¬ (
              open_leased codec fault authorization native_save slot id (err writer_locked, before)
              ≡ (ok session, root'))
      no_lease before h =
          unfold open_leased in
          ok-not-err (sym (ap (λ (t : Result StateSession × Root Bytes). t.0) h))

  -- an opening that succeeds has taken the lease, and its session is open
  pub open_locks :
      (granted : Bool) (id : String) (root root' : Root Bytes) (session : StateSession)
      → open_session codec fault authorization native_save slot granted id root
        ≡ (ok session, root')
      → (root.locked ≡ false) × (root'.locked ≡ true) × (session.is_closed ≡ false)
  open_locks granted id root root' session h =
      let (free, settled) = opened granted id root root' session h in
      let (held, begun) =
        settle_ok (record root { locked = true }) _ session root' (files-Begun id _) settled in
      (free, held, begun)

  -- an opening that is refused leaves the lease as it was.
  pub refuse_locks :
      (granted : Bool) (id : String) (root root' : Root Bytes) (e : Error)
      → open_session codec fault authorization native_save slot granted id root ≡ (err e, root')
      → root'.locked ≡ root.locked
  refuse_locks granted id root root' e h = elim (acquire_cases granted root) [
    | inl (l, q) ↦ same root (leased granted id root _ q h)
    | inr (l, inl q) ↦ released (leased granted id root _ q h) ∙ sym l
    | inr (l, inr q) ↦ same (record root { locked = false }) (leased granted id root _ q h) ∙ sym l
  ]
    where
      same :
          (before : Root Bytes)
          → open_leased codec fault authorization native_save slot id (err writer_locked, before)
            ≡ (err e, root')
          → root'.locked ≡ before.locked
      same before h =
          unfold open_leased in sym (ap (λ (t : Result StateSession × Root Bytes). t.1.locked) h)

      released :
          open_leased codec fault authorization native_save slot id
              (ok tt, record root { locked = true })
            ≡ (err e, root')
          → root'.locked ≡ false
      released h = unfold open_leased in settle_err (record root { locked = true }) _ e root' h

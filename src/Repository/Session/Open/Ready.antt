-- ===== src/Repository/Session/Open/Ready.antt =====
-- What an opening has before it commits.
use jak3_ap.Prelude.{
  ◌≡◌, refl, ap, ◌∙◌, sym, subst, Bool, true, false, Option, none, some, Result, ok, ok-injective,
  >>-eq-ok, >>=-eq-ok,
}
use jak3_ap.Persistence.State.{NativeSaveDescriptor, AuthenticatedSlot, PersistentState}
use jak3_ap.Persistence.Identity.{Platform, is_bound}
use jak3_ap.Persistence.Validate.{validate_state, post_init}
use jak3_ap.Persistence.Create.{bind}
use jak3_ap.Repository.{Codec, Stage, StateOpenStatus}
use jak3_ap.Repository.Session.Fits.{marked_fits}
use jak3_ap.Repository.Session.Open.{
  Opening, run_check, bind_unbound, bind_first, clear_shutdown, begin_session, opening_of,
}

module _ {p : Platform} (codec : Codec p) (fault : Stage → Bool)
    (authorization : Option (Result (Unit {0}))) (native_save : NativeSaveDescriptor)
    (slot : Option AuthenticatedSlot) where
  open codec use {Bytes}

  -- what `_open` has before it commits: the loaded state, unless it has marked a change
  pub record IsReady (s : PersistentState) (o : Opening) : Type 0 where
    pub fits : validate_state p o.state (some native_save) slot ≡ ok tt
    pub unclean : o.state.last_clean_shutdown ≡ false
    pub unchanged : o.changed ≡ false → o.state ≡ s
    pub authorized : o.binding_performed ≡ true → run_check authorization ≡ ok tt

  clear-IsReady :
      (s : PersistentState) (o o' : Opening) (b : Bool)
      → o.state.last_clean_shutdown ≡ b
      → validate_state p o.state (some native_save) slot ≡ ok tt
      → (o.changed ≡ false → o.state ≡ s)
      → (o.binding_performed ≡ true → run_check authorization ≡ ok tt)
      → clear_shutdown codec fault authorization native_save slot o b ≡ ok o'
      → IsReady s o'
  unfolding clear_shutdown post_init
  clear-IsReady s o o' false e v u a h =
      subst (IsReady s) (ok-injective h)
        (record { fits = v; unclean = e; unchanged = u; authorized = a })
  clear-IsReady s o o' true e v u a h =
      let cleared = record o {
        state = record o.state { last_clean_shutdown = false };
        changed = true;
      } in
      let (state, built, r) = >>=-eq-ok (post_init p cleared.state) _ h in
      let (_, same) = >>-eq-ok (validate_state p cleared.state none none) _ built in
      subst (IsReady s)
        (ap (λ (t : PersistentState). record o { state = t; changed = true }) (ok-injective same)
          ∙ ok-injective r)
        (record {
          fits = marked_fits p o.state o.state.state_revision false (some native_save) slot v;
          unclean = refl;
          unchanged = λ c. cc;
          authorized = a;
        })

  begin-IsReady :
      (s : PersistentState) (o o' : Opening)
      → (o.changed ≡ false → o.state ≡ s)
      → (o.binding_performed ≡ true → run_check authorization ≡ ok tt)
      → begin_session codec fault authorization native_save slot o ≡ ok o'
      → IsReady s o'
  unfolding begin_session
  begin-IsReady s o o' u a h =
      let (v, r) = >>-eq-ok (validate_state p o.state (some native_save) slot) _ h in
      clear-IsReady s o o' o.state.last_clean_shutdown refl v u a r

  unbound-kept :
      (a : AuthenticatedSlot) (s : PersistentState) (status : StateOpenStatus) (b : Bool)
      (o : Opening)
      → bind_unbound codec fault authorization native_save slot a s status b ≡ ok o
      → o.changed ≡ false
      → o.state ≡ s
  unfolding bind_unbound
  unbound-kept a s status true o h c = sym (ap (λ (t : Opening). t.state) (ok-injective h))
  unbound-kept a s status false o h c =
      let (_, r) = >>-eq-ok (run_check authorization) _ h in
      let (bound, _, r2) = >>=-eq-ok (bind p s a) _ r in
      let same = ap (λ (t : Opening). t.changed) (ok-injective r2) in cc

  unbound-authorized :
      (a : AuthenticatedSlot) (s : PersistentState) (status : StateOpenStatus) (b : Bool)
      (o : Opening)
      → bind_unbound codec fault authorization native_save slot a s status b ≡ ok o
      → o.binding_performed ≡ true
      → run_check authorization ≡ ok tt
  unfolding bind_unbound
  unbound-authorized a s status true o h c =
      let same = ap (λ (t : Opening). t.binding_performed) (ok-injective h) in cc
  unbound-authorized a s status false o h c = (>>-eq-ok (run_check authorization) _ h).0

  first-authorized :
      (slot' : Option AuthenticatedSlot) (s : PersistentState) (status : StateOpenStatus)
      (o : Opening)
      → bind_first codec fault authorization native_save slot slot' s status ≡ ok o
      → o.binding_performed ≡ true
      → run_check authorization ≡ ok tt
  unfolding bind_first
  first-authorized none s status o h c =
      let same = ap (λ (t : Opening). t.binding_performed) (ok-injective h) in cc
  first-authorized (some a) s status o h c =
      let (was, _, r) =
        >>=-eq-ok (is_bound s) (bind_unbound codec fault authorization native_save slot a s status)
          h in
      unbound-authorized a s status was o r c

  first-kept :
      (slot' : Option AuthenticatedSlot) (s : PersistentState) (status : StateOpenStatus)
      (o : Opening)
      → bind_first codec fault authorization native_save slot slot' s status ≡ ok o
      → o.changed ≡ false
      → o.state ≡ s
  unfolding bind_first
  first-kept none s status o h c = sym (ap (λ (t : Opening). t.state) (ok-injective h))
  first-kept (some a) s status o h c =
      let (was, _, r) =
        >>=-eq-ok (is_bound s) (bind_unbound codec fault authorization native_save slot a s status)
          h in
      unbound-kept a s status was o r c

  pub opening-IsReady :
      (s : PersistentState) (status : StateOpenStatus) (o : Opening)
      → opening_of codec fault authorization native_save slot (s, status) ≡ ok o
      → IsReady s o
  unfolding opening_of
  opening-IsReady s status o h =
      let (o', e, r) =
        >>=-eq-ok (bind_first codec fault authorization native_save slot slot s status)
          (begin_session codec fault authorization native_save slot) h in
      begin-IsReady s o' o (first-kept slot s status o' e) (first-authorized slot s status o' e) r

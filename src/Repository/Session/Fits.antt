-- ===== src/Repository/Session/Fits.antt =====
-- What passes the validation for a save and a slot is valid, and so is its next revision.
use jak3_ap.Prelude.{
  ℕ, ◌+◌, ◌≡◌, refl, ap, ◌∙◌, Bool, true, false, Option, none, some, Result, ok, ◌>>=◌, >>-eq-ok,
  >>=-eq-ok,
}
use jak3_ap.Persistence.State.{NativeSaveDescriptor, AuthenticatedSlot, PersistentState}
use jak3_ap.Persistence.Identity.{
  Platform, is_bound, compare_contract, expected_contract, validate_uuid, validate_native_save_slot,
  validate_identity_text, validate_native_save, validate_binding,
}
use jak3_ap.Persistence.Validate.{
  validate_state, validate_header, validate_application, validate_footer,
}
use mathlib.Core.Path.{fun_ext}
use jak3_ap.Outbox.Transition.{IsValid}
use jak3_ap.Repository.Commit.{next_revision}

binding_weak :
    (s : PersistentState) (slot : Option AuthenticatedSlot) (bound : Bool)
    → validate_binding s slot bound ≡ ok tt
    → validate_binding s none bound ≡ ok tt
unfolding validate_binding
binding_weak s slot false h = refl
binding_weak s none true h = h
binding_weak s (some a) true h = (>>-eq-ok _ _ h).0

header_weak :
    (p : Platform) (s : PersistentState) (native_save : Option NativeSaveDescriptor)
    (slot : Option AuthenticatedSlot)
    → validate_header p s native_save slot ≡ ok tt
    → validate_header p s none none ≡ ok tt
unfolding validate_header
header_weak p s native_save slot h =
    let (contract, r1) = >>-eq-ok (compare_contract s.contract (expected_contract p)) _ h in
    let (id, r2) = >>-eq-ok (validate_uuid p s.state_instance_id) _ r1 in
    let (place, r3) = >>-eq-ok (validate_native_save_slot s.native_save_slot) _ r2 in
    let (name, r4) = >>-eq-ok (validate_identity_text 256 s.native_save_identity) _ r3 in
    let (_, r5) = >>-eq-ok (validate_native_save s native_save) _ r4 in
    let (bound, b, r6) = >>=-eq-ok (is_bound s) (validate_binding s slot) r5 in
    rw (contract, id, place, name, b, binding_weak s slot bound r6)
      (unfold validate_native_save in refl)

-- a state that fits a save and a slot is valid
pub valid_lem :
    (p : Platform) (s : PersistentState) (native_save : Option NativeSaveDescriptor)
    (slot : Option AuthenticatedSlot)
    → validate_state p s native_save slot ≡ ok tt
    → IsValid p s
unfolding validate_state
valid_lem p s native_save slot h =
    let (header, rest) = >>-eq-ok (validate_header p s native_save slot) _ h in
    rw (header_weak p s native_save slot header) rest

-- the state with another revision and another flag of the shutdown
abbrev pub marked : PersistentState → ℕ → Bool → PersistentState
marked s n b = record s { state_revision = n; last_clean_shutdown = b }

marked_save :
    (s : PersistentState) (n : ℕ) (b : Bool) (native_save : Option NativeSaveDescriptor)
    → validate_native_save (marked s n b) native_save ≡ validate_native_save s native_save
unfolding validate_native_save
marked_save s n b none = refl
marked_save s n b (some native_save) = refl

marked_binding :
    (s : PersistentState) (n : ℕ) (b : Bool) (slot : Option AuthenticatedSlot) (bound : Bool)
    → validate_binding (marked s n b) slot bound ≡ validate_binding s slot bound
unfolding validate_binding
marked_binding s n b none true = refl
marked_binding s n b none false = refl
marked_binding s n b (some a) true = refl
marked_binding s n b (some a) false = refl

marked_bound :
    (s : PersistentState) (n : ℕ) (b : Bool) (slot : Option AuthenticatedSlot)
    → (is_bound (marked s n b) >>= validate_binding (marked s n b) slot)
      ≡ (is_bound s >>= validate_binding s slot)
marked_bound s n b slot =
    ap (λ (g : Bool → Result (Unit {0})). is_bound (marked s n b) >>= g)
      (fun_ext (marked_binding s n b slot))
    ∙ unfold is_bound in refl

marked_header :
    (p : Platform) (s : PersistentState) (n : ℕ) (b : Bool)
    (native_save : Option NativeSaveDescriptor) (slot : Option AuthenticatedSlot)
    → validate_header p (marked s n b) native_save slot ≡ validate_header p s native_save slot
unfolding validate_header
marked_header p s n b native_save slot =
    rw (marked_save s n b native_save, marked_bound s n b slot) (refl)

pub marked_fits :
    (p : Platform) (s : PersistentState) (n : ℕ) (b : Bool)
    (native_save : Option NativeSaveDescriptor) (slot : Option AuthenticatedSlot)
    → validate_state p s native_save slot ≡ ok tt
    → validate_state p (marked s n b) native_save slot ≡ ok tt
unfolding validate_state validate_application validate_footer
marked_fits p s n b native_save slot h = rw (marked_header p s n b native_save slot) (h)

pub next_fits :
    (p : Platform) (s : PersistentState) (native_save : Option NativeSaveDescriptor)
    (slot : Option AuthenticatedSlot)
    → validate_state p s native_save slot ≡ ok tt
    → validate_state p (next_revision s) native_save slot ≡ ok tt
unfolding next_revision
next_fits p s native_save slot h =
    marked_fits p s (s.state_revision + 1) s.last_clean_shutdown native_save slot h

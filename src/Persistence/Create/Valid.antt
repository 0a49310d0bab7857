-- ===== src/Persistence/Create/Valid.antt =====
-- A new state is valid and the initial one.
use jak3_ap.Prelude.{
  ◌≡◌, refl, ◌∙◌, sym, subst, String, none, some, ok, ok-injective, >>-eq-ok, >>=-eq-ok,
}
use jak3_ap.Persistence.State.{NativeSaveEligibility, NativeSaveDescriptor, PersistentState}
use jak3_ap.Persistence.Identity.{Platform}
use jak3_ap.Persistence.Validate.{validate_state, post_init}
use jak3_ap.Persistence.Create.{unbound_state, create_for, create_unbound}

for-IsValid :
    (p : Platform) (native_save : NativeSaveDescriptor) (id : String)
    (eligibility : NativeSaveEligibility) (s : PersistentState)
    → create_for p native_save id eligibility ≡ ok s
    → validate_state p s none none ≡ ok tt
unfolding create_for post_init
for-IsValid p native_save id NativeSaveEligibility.ineligible s h = cc
for-IsValid p native_save id NativeSaveEligibility.fresh_unprogressed s h =
    let (state, built, r) = >>=-eq-ok (post_init p (unbound_state p native_save id)) _ h in
    let (v, e) = >>-eq-ok (validate_state p (unbound_state p native_save id) none none) _ built in
    let (_, same) = >>-eq-ok (validate_state p state (some native_save) none) _ r in
    subst (λ (t : PersistentState). validate_state p t none none ≡ ok tt)
      (ok-injective e ∙ ok-injective same) v

pub create_unbound-IsValid :
    (p : Platform) (native_save : NativeSaveDescriptor) (id : String) (s : PersistentState)
    → create_unbound p native_save id ≡ ok s
    → validate_state p s none none ≡ ok tt
unfolding create_unbound
create_unbound-IsValid p native_save id s h =
    for-IsValid p native_save id native_save.eligibility s h

-- what a created state is
created_for :
    (p : Platform) (native_save : NativeSaveDescriptor) (id : String)
    (eligibility : NativeSaveEligibility) (s : PersistentState)
    → create_for p native_save id eligibility ≡ ok s
    → (eligibility ≡ NativeSaveEligibility.fresh_unprogressed)
      × (s ≡ unbound_state p native_save id)
unfolding create_for post_init
created_for p native_save id NativeSaveEligibility.ineligible s h = cc
created_for p native_save id NativeSaveEligibility.fresh_unprogressed s h =
    let (state, built, r) = >>=-eq-ok (post_init p (unbound_state p native_save id)) _ h in
    let (_, e) = >>-eq-ok (validate_state p (unbound_state p native_save id) none none) _ built in
    let (_, same) = >>-eq-ok (validate_state p state (some native_save) none) _ r in
    (refl, sym (ok-injective e ∙ ok-injective same))

pub created_unbound :
    (p : Platform) (native_save : NativeSaveDescriptor) (id : String) (s : PersistentState)
    → create_unbound p native_save id ≡ ok s
    → (native_save.eligibility ≡ NativeSaveEligibility.fresh_unprogressed)
      × (s ≡ unbound_state p native_save id)
unfolding create_unbound
created_unbound p native_save id s h = created_for p native_save id native_save.eligibility s h

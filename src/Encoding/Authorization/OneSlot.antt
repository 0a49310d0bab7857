-- ===== src/Encoding/Authorization/OneSlot.antt =====
-- A save identity is authorized for one slot.
use text.Mathlib.TextEquality.{eq_iff}
use jak3_ap.Prelude.{
  ==_iff, ◌≡◌, ◌∙◌, sym, String, Bool, true, ◌&&◌, Option, ok, ok-injective, binding, require,
  >>-eq-ok, >>=-eq-ok, arith, subst,
}
use jak3_ap.Persistence.State.{AuthenticatedSlot}
use jak3_ap.Persistence.Identity.{Platform, validate_uuid}
use jak3_ap.Encoding.Json.{Library}
use jak3_ap.Encoding.Authorization.{
  SaveIdentityAuthorization, load_save_identity_authorization, validate_save_identity_authorization,
  require_save_identity_authorization,
}

-- the authorization names the save identity and the slot
pub record Names (authorization : SaveIdentityAuthorization) (id : String) (a : AuthenticatedSlot)
    : Type 0 where
  pub native_save_identity : authorization.native_save_identity ≡ id
  pub seed_identifier : authorization.seed_identifier ≡ a.seed_identifier
  pub team : authorization.team ≡ a.team
  pub slot : authorization.slot ≡ a.slot
  pub slot_name : authorization.slot_name ≡ a.slot_name

-- two slots have the same seed, team, number and name
pub record SameSlot (a b : AuthenticatedSlot) : Type 0 where
  pub seed_identifier : a.seed_identifier ≡ b.seed_identifier
  pub team : a.team ≡ b.team
  pub slot : a.slot ≡ b.slot
  pub slot_name : a.slot_name ≡ b.slot_name

conjuncts :
    (a b c d e : Bool)
    → require (a && b && c && d && e) binding ≡ ok tt
    → (a ≡ true) × (b ≡ true) × (c ≡ true) × (d ≡ true) × (e ≡ true)
conjuncts a b c d e h = ground arith

validated-Names :
    (authorization : SaveIdentityAuthorization) (id : String) (a : AuthenticatedSlot)
    → validate_save_identity_authorization authorization id a ≡ ok tt
    → Names authorization id a
unfolding validate_save_identity_authorization
validated-Names authorization id a h =
    let (i, s, t, n, m) = conjuncts _ _ _ _ _ h in
    record {
      native_save_identity = (eq_iff authorization.native_save_identity id).0 i;
      seed_identifier = (eq_iff authorization.seed_identifier a.seed_identifier).0 s;
      team = (==_iff authorization.team a.team).0 t;
      slot = (==_iff authorization.slot a.slot).0 n;
      slot_name = (eq_iff authorization.slot_name a.slot_name).0 m;
    }

-- a check that passes has read an authorization that names the slot
required-Names :
    (lib : Library) (p : Platform) (file : Option (Library.Bytes lib)) (id : String)
    (a : AuthenticatedSlot)
    → require_save_identity_authorization lib p file id a ≡ ok tt
    → (authorization : SaveIdentityAuthorization) × (load_save_identity_authorization lib p file
        ≡ ok authorization)
      × Names authorization id a
unfolding require_save_identity_authorization
required-Names lib p file id a h =
    let (_, r) = >>-eq-ok (validate_uuid p id) _ h in
    let (authorization, loads, v) = >>=-eq-ok (load_save_identity_authorization lib p file) _ r in
    (authorization, loads, validated-Names authorization id a v)

-- One authorization file passes the check of one slot only, and of one save identity only.
pub require_save_identity_authorization-SameSlot :
    (lib : Library) (p : Platform) (file : Option (Library.Bytes lib)) (id id' : String)
    (a b : AuthenticatedSlot)
    → require_save_identity_authorization lib p file id a ≡ ok tt
    → require_save_identity_authorization lib p file id' b ≡ ok tt
    → (id ≡ id') × SameSlot a b
require_save_identity_authorization-SameSlot lib p file id id' a b h g =
    let (m, loads, f) = required-Names lib p file id a h in
    let (n, loads', k) = required-Names lib p file id' b g in
    let l =
      subst (λ (t : SaveIdentityAuthorization). Names t id' b) (ok-injective (sym loads' ∙ loads))
        k in
    (
      sym f.native_save_identity ∙ l.native_save_identity,
      record {
        seed_identifier = sym f.seed_identifier ∙ l.seed_identifier;
        team = sym f.team ∙ l.team;
        slot = sym f.slot ∙ l.slot;
        slot_name = sym f.slot_name ∙ l.slot_name;
      },
    )

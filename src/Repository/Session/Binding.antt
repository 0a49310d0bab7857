-- ===== src/Repository/Session/Binding.antt =====
-- Two states with the same slot binding (`_binding_tuple` of worlds/jak3/persistence.py).
pub mod Kept
use text.Mathlib.TextEquality.{eq_iff}
use jak3_ap.Prelude.{
  ℕ, ◌+◌, ◌≡◌, refl, ap, ◌∙◌, sym, String, Bool, true, false, Option, none, some, Result, ok, err,
  ok-injective, ok-not-err, ◌==◌, ==_iff, subst, require, binding, closed, not, Error,
  stale_revision, >>-eq-ok, >>=-eq-ok, Bool-cases, inl, inr, arith, if◌then◌else◌, ◌&&◌, ◌>>◌,
  ◌>>=◌,
}
use jak3_ap.Persistence.State.{AuthenticatedSlot, PersistentState}
use jak3_ap.Persistence.Identity.{Platform, is_bound}
use jak3_ap.Persistence.Validate.{validate_state, post_init}
use jak3_ap.Persistence.Create.{bind}
use jak3_ap.Repository.Session.Ends.{close-closed, close-open}
use text.Mathlib.Text.{◌==◌ as str_eq}
use jak3_ap.Persistence.Equal.{same_texts, same_numbers}
use jak3_ap.Repository.Session.{same_binding}

pub record SameBinding (s t : PersistentState) : Type 0 where
  pub seed_identifier : s.seed_identifier ≡ t.seed_identifier
  pub team : s.team ≡ t.team
  pub slot : s.slot ≡ t.slot
  pub slot_name : s.slot_name ≡ t.slot_name

pub unmoved : (s : PersistentState) → SameBinding s s
unmoved s = record { seed_identifier = refl; team = refl; slot = refl; slot_name = refl }

pub joined : {s t u : PersistentState} → SameBinding s t → SameBinding t u → SameBinding s u
joined f g = record {
  seed_identifier = f.seed_identifier ∙ g.seed_identifier;
  team = f.team ∙ g.team;
  slot = f.slot ∙ g.slot;
  slot_name = f.slot_name ∙ g.slot_name;
}

pub is_bound_same :
    {s t : PersistentState} → SameBinding s t → is_bound t ≡ ok true → is_bound s ≡ ok true
unfolding is_bound
is_bound_same f h = rw (f.seed_identifier, f.team, f.slot, f.slot_name) h

pub with_revision :
    (s t : PersistentState) (n : ℕ)
    → SameBinding s t
    → SameBinding (record s { state_revision = n }) t
with_revision s t n h = record {
  seed_identifier = h.seed_identifier;
  team = h.team;
  slot = h.slot;
  slot_name = h.slot_name;
}

texts_eq : (a b : Option String) → same_texts a b ≡ true → a ≡ b
unfolding same_texts
texts_eq none none h = refl
texts_eq (some a) (some b) h = ap some ((eq_iff a b).0 h)
texts_eq none (some b) h = cc
texts_eq (some a) none h = cc

numbers_eq : (a b : Option ℕ) → same_numbers a b ≡ true → a ≡ b
unfolding same_numbers
numbers_eq none none h = refl
numbers_eq (some a) (some b) h = ap some ((==_iff a b).0 h)
numbers_eq none (some b) h = cc
numbers_eq (some a) none h = cc

conjuncts :
    (a b c d : Bool) → (a && b && c && d) ≡ true → (a ≡ true) × (b ≡ true) × (c ≡ true) × (d ≡ true)
conjuncts a b c d h = ground arith

pub same_binding_lem : (s t : PersistentState) → same_binding s t ≡ true → SameBinding s t
unfolding same_binding
same_binding_lem s t h =
    let (a, b, c, d) = conjuncts _ _ _ _ h in
    record {
      seed_identifier = texts_eq s.seed_identifier t.seed_identifier a;
      team = numbers_eq s.team t.team b;
      slot = numbers_eq s.slot t.slot c;
      slot_name = texts_eq s.slot_name t.slot_name d;
    }

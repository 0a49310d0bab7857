-- ===== src/Outbox/Transition.antt =====
-- What a transition of the location ledger does to a valid state.
use jak3_ap.Prelude.{ℕ, ◌≡◌, refl, sym, ◌∙◌, ◌↔◌, true, false, not, ◌&&◌, List, arith, none, ok}
use jak3_ap.IdSet.{member, difference, subset, sorted_set, Subset}
use jak3_ap.IdSet.Laws.{
  member-difference, member-sorted_set, subset_complete, same_list_sound, same_list_refl,
}
use jak3_ap.IdSet.Order.{sorted_set-IsSorted, sorted_unique}
use jak3_ap.Registry.{location_ids}
use jak3_ap.Persistence.State.{PersistentState}
use jak3_ap.Persistence.Identity.{Platform}
use jak3_ap.Persistence.Locations.Ledger.{IsLedger, validate_locations_iff}
use jak3_ap.Persistence.Validate.{
  validate_state, validate_header, validate_application, validate_footer, post_init,
}
use jak3_ap.Outbox.{LocationTransition, with_locations, same_locations, transition}

-- `validate_state` accepts the state.
abbrev pub IsValid : Platform → PersistentState → Type 0
IsValid p s = validate_state p s none none ≡ ok tt

abbrev pub HasLedger : PersistentState → Type 0
HasLedger s =
    IsLedger s.checked_location_bits s.server_confirmed_location_bits s.pending_location_outbox

pub valid-ledger : (p : Platform) (s : PersistentState) → IsValid p s → HasLedger s
unfolding validate_state
valid-ledger p s v =
    (validate_locations_iff s.checked_location_bits s.server_confirmed_location_bits
        s.pending_location_outbox).0
      (ground arith)

pub with_locations-IsValid :
    (p : Platform) (s : PersistentState) (c f o : List ℕ)
    → IsValid p s
    → IsLedger c f o
    → IsValid p (with_locations s c f o)
unfolding validate_state with_locations validate_header validate_application validate_footer
with_locations-IsValid p s c f o v l = ground (arith, (validate_locations_iff c f o).1 l)

-- What a transition to the given checked and confirmed sets has done to `s`.
pub record Reconciles (p : Platform) (s : PersistentState) (checked confirmed : List ℕ)
    (t : LocationTransition) : Type 0 where
  pub valid : IsValid p t.state
  pub frame :
      t.state
      ≡ with_locations s t.state.checked_location_bits t.state.server_confirmed_location_bits
          t.state.pending_location_outbox
  pub checked_set : (n : ℕ) → member n t.state.checked_location_bits ≡ member n checked
  pub confirmed_set : (n : ℕ) → member n t.state.server_confirmed_location_bits ≡ member n confirmed
  pub pending_set :
      (n : ℕ)
      → member n t.state.pending_location_outbox ≡ (member n checked && not (member n confirmed))
  pub checked_added_set :
      (n : ℕ)
      → member n t.checked_added ≡ (member n checked && not (member n s.checked_location_bits))
  pub confirmed_added_set :
      (n : ℕ)
      → member n t.confirmed_added
        ≡ (member n confirmed && not (member n s.server_confirmed_location_bits))
  pub confirmed_removed_set :
      (n : ℕ)
      → member n t.confirmed_removed
        ≡ (member n s.server_confirmed_location_bits && not (member n confirmed))
  pub pending_added_set :
      (n : ℕ)
      → member n t.pending_added
        ≡ (member n checked && not (member n confirmed) && not (member n s.pending_location_outbox))
  pub pending_removed_set :
      (n : ℕ)
      → member n t.pending_removed
        ≡ (member n s.pending_location_outbox && not (member n checked && not (member n confirmed)))
  pub changed_iff : (t.changed ≡ false) ↔ (t.state ≡ s)

member-sorted-difference :
    (n : ℕ) (xs ys : List ℕ)
    → member n (sorted_set (difference xs ys)) ≡ (member n xs && not (member n ys))
member-sorted-difference n xs ys =
    member-sorted_set n (difference xs ys) ∙ member-difference n xs ys

IsLedger-of_sets :
    (c f : List ℕ)
    → Subset f c
    → Subset c location_ids
    → IsLedger (sorted_set c) (sorted_set f) (sorted_set (difference c f))
IsLedger-of_sets c f fc known = record {
  checked_sorted = sorted_set-IsSorted c;
  confirmed_sorted = sorted_set-IsSorted f;
  outbox_sorted = sorted_set-IsSorted (difference c f);
  known = λ n m. known n (sym (member-sorted_set n c) ∙ m);
  union = λ n.
      ground
        (arith, member-sorted_set n c, member-sorted_set n f, member-sorted-difference n c f, fc n);
  disjoint = λ n. ground (arith, member-sorted_set n f, member-sorted-difference n c f);
}

-- the state and the deltas that a transition returns
arrives : PersistentState → List ℕ → List ℕ → PersistentState
arrives s c f = with_locations s (sorted_set c) (sorted_set f) (sorted_set (difference c f))

returned : PersistentState → List ℕ → List ℕ → LocationTransition
returned s c f = record {
  state = arrives s c f;
  changed = not (same_locations (arrives s c f) s);
  checked_added = sorted_set (difference c s.checked_location_bits);
  confirmed_added = sorted_set (difference f s.server_confirmed_location_bits);
  confirmed_removed = sorted_set (difference s.server_confirmed_location_bits f);
  pending_added = sorted_set (difference (difference c f) s.pending_location_outbox);
  pending_removed = sorted_set (difference s.pending_location_outbox (difference c f));
}

same_locations_sound :
    (s : PersistentState) (c f o : List ℕ)
    → same_locations (with_locations s c f o) s ≡ true
    → with_locations s c f o ≡ s
unfolding same_locations with_locations
same_locations_sound s c f o h = ground (
  arith,
  same_list_sound c s.checked_location_bits,
  same_list_sound f s.server_confirmed_location_bits,
  same_list_sound o s.pending_location_outbox,
)

same_locations_refl : (s : PersistentState) → same_locations s s ≡ true
unfolding same_locations
same_locations_refl s = rw (
  same_list_refl s.checked_location_bits,
  same_list_refl s.server_confirmed_location_bits,
  same_list_refl s.pending_location_outbox,
)

changed_lem :
    (s : PersistentState) (c f o : List ℕ)
    → (not (same_locations (with_locations s c f o) s) ≡ false) ↔ (with_locations s c f o ≡ s)
changed_lem s c f o =
    (λ h. same_locations_sound s c f o (ground arith), λ e. rw (e, same_locations_refl s))

returned-Reconciles :
    (p : Platform) (s : PersistentState) (c f : List ℕ)
    → IsValid p s
    → Subset f c
    → Subset c location_ids
    → Reconciles p s c f (returned s c f)
unfolding returned arrives
returned-Reconciles p s c f v fc known = record {
  valid = with_locations-IsValid p s _ _ _ v (IsLedger-of_sets c f fc known);
  frame = unfold with_locations in refl;
  checked_set = λ n. unfold with_locations in member-sorted_set n c;
  confirmed_set = λ n. unfold with_locations in member-sorted_set n f;
  pending_set = λ n. unfold with_locations in member-sorted-difference n c f;
  checked_added_set = λ n. member-sorted-difference n c s.checked_location_bits;
  confirmed_added_set = λ n. member-sorted-difference n f s.server_confirmed_location_bits;
  confirmed_removed_set = λ n. member-sorted-difference n s.server_confirmed_location_bits f;
  pending_added_set = λ n. ground (
    arith,
    member-sorted-difference n (difference c f) s.pending_location_outbox,
    member-difference n c f,
  );
  pending_removed_set = λ n. ground (
    arith,
    member-sorted-difference n s.pending_location_outbox (difference c f),
    member-difference n c f,
  );
  changed_iff = changed_lem s _ _ _;
}

returns :
    (p : Platform) (s : PersistentState) (c f : List ℕ)
    → subset s.checked_location_bits c ≡ true
    → subset f c ≡ true
    → IsValid p (arrives s c f)
    → transition p s c f ≡ ok (returned s c f)
unfolding transition post_init returned arrives
returns p s c f sc fc v = rw (sc, fc, v)

arrives-IsValid :
    (p : Platform) (s : PersistentState) (c f : List ℕ)
    → IsValid p s
    → Subset f c
    → Subset c location_ids
    → IsValid p (arrives s c f)
unfolding arrives
arrives-IsValid p s c f v fc known =
    with_locations-IsValid p s _ _ _ v (IsLedger-of_sets c f fc known)

-- On a valid state, a transition that forgets no check and confirms only checks of known
-- locations returns, and what it returns is what the sets ask for.
pub transition-Reconciles :
    (p : Platform) (s : PersistentState) (checked confirmed : List ℕ)
    → IsValid p s
    → Subset s.checked_location_bits checked
    → Subset confirmed checked
    → Subset checked location_ids
    → (t : LocationTransition) × (transition p s checked confirmed ≡ ok t)
      × Reconciles p s checked confirmed t
transition-Reconciles p s c f v sc fc known = (
  returned s c f,
  returns p s c f (subset_complete _ c sc) (subset_complete f c fc)
      (arrives-IsValid p s c f v fc known),
  returned-Reconciles p s c f v fc known,
)

arrived :
    (p : Platform) (s : PersistentState) (c f : List ℕ) {t : LocationTransition}
    → transition p s c f ≡ ok t
    → IsValid p (arrives s c f)
unfolding transition post_init arrives
arrived p s c f h = ground arith

-- A transition to the sets that a valid state has returns that state.
pub same_sets :
    (p : Platform) (s : PersistentState) (checked confirmed : List ℕ) {t : LocationTransition}
    → IsValid p s
    → Reconciles p s checked confirmed t
    → ((n : ℕ) → member n checked ≡ member n s.checked_location_bits)
    → ((n : ℕ) → member n confirmed ≡ member n s.server_confirmed_location_bits)
    → t.state ≡ s
same_sets p s c f {t} v r hc hf =
    let old = valid-ledger p s v in
    let new = valid-ledger p t.state r.valid in
    let ec =
      sorted_unique t.state.checked_location_bits s.checked_location_bits new.checked_sorted
        old.checked_sorted (λ n. r.checked_set n ∙ hc n) in
    let ef =
      sorted_unique t.state.server_confirmed_location_bits s.server_confirmed_location_bits
        new.confirmed_sorted old.confirmed_sorted (λ n. r.confirmed_set n ∙ hf n) in
    let eo =
      sorted_unique t.state.pending_location_outbox s.pending_location_outbox new.outbox_sorted
        old.outbox_sorted
        (λ n. ground (arith, r.pending_set n, hc n, hf n, old.union n, old.disjoint n)) in
    r.frame ∙ unfold with_locations in cc (ec, ef, eo)

-- A transition that returns has confirmed only checks, of known locations.
pub transition-known :
    (p : Platform) (s : PersistentState) (checked confirmed : List ℕ) {t : LocationTransition}
    → transition p s checked confirmed ≡ ok t
    → Subset checked location_ids
transition-known p s c f h n m =
    (valid-ledger p (arrives s c f) (arrived p s c f h)).known n
      (unfold arrives with_locations in member-sorted_set n c ∙ m)

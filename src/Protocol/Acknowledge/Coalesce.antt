-- ===== src/Protocol/Acknowledge/Coalesce.antt =====
-- What several acknowledgements become while none is sent.
use jak3_ap.Prelude.{
  ◌≡◌, refl, subst, sym, ℤ, same_int, same_int_refl, int_max, int_ltb, Bool, true, false, ◌||◌,
  none, some, List, [], ◌∷◌, All, if◌then◌else◌, arith, Bool-cases, inl, inr,
}
use jak3_ap.Protocol.Acknowledge.{schedule_goal_acknowledgement}

-- the calls since the last one was sent, the latest one first
unfoldable pub schedule_all : ℤ × ℤ → List (ℤ × ℤ) → ℤ × ℤ
schedule_all latest [] = schedule_goal_acknowledgement latest.0 latest.1 none
schedule_all latest (before ∷ earlier) =
    schedule_goal_acknowledgement latest.0 latest.1 (some (schedule_all before earlier))

-- the acknowledgements at the head that are of one generation
unfoldable pub of_generation : ℤ → List (ℤ × ℤ) → List ℤ
of_generation activation [] = []
of_generation activation (call ∷ earlier) =
    let rest = of_generation activation earlier in
    if same_int call.0 activation then call.1 ∷ rest else []

pub has_number : ℤ → List ℤ → Bool
has_number n [] = false
has_number n (m ∷ ms) = same_int m n || has_number n ms

-- `n` is one of the numbers, and none of them is greater
pub record IsGreatest (n : ℤ) (numbers : List ℤ) : Type 0 where
  pub is_one : has_number n numbers ≡ true
  pub is_bound : All (λ m. int_ltb n m ≡ false) numbers

same_generation :
    (latest : ℤ × ℤ) (earlier : List (ℤ × ℤ)) → (schedule_all latest earlier).0 ≡ latest.0
unfolding schedule_all schedule_goal_acknowledgement
same_generation latest [] = refl
same_generation latest (before ∷ earlier) = ground arith

int_sound : (a b : ℤ) → same_int a b ≡ true → a ≡ b
int_sound a b h = ground arith

bound_max :
    (n m : ℤ) (numbers : List ℤ)
    → All (λ k. int_ltb n k ≡ false) numbers
    → All (λ k. int_ltb (int_max n m) k ≡ false) numbers
bound_max n m [] h = tt
bound_max n m (k ∷ ks) h = (ground (arith, h.0), bound_max n m ks h.1)

IsGreatest-max :
    (n m : ℤ) (numbers : List ℤ) → IsGreatest n numbers → IsGreatest (int_max n m) (m ∷ numbers)
unfolding has_number
IsGreatest-max n m numbers g = record {
  is_one = ground (arith, g.is_one, same_int_refl m);
  is_bound = (ground arith, bound_max n m numbers g.is_bound);
}

single : (n : ℤ) → IsGreatest n (n ∷ [])
unfolding has_number
single n = record { is_one = ground (arith, same_int_refl n); is_bound = (ground arith, tt) }

step :
    (latest before pending : ℤ × ℤ) (earlier : List (ℤ × ℤ))
    → pending.0 ≡ before.0
    → IsGreatest pending.1 (before.1 ∷ of_generation before.0 earlier)
    → IsGreatest
        (schedule_goal_acknowledgement latest.0 latest.1 (some pending)).1
        (latest.1 ∷ of_generation latest.0 (before ∷ earlier))
unfolding schedule_goal_acknowledgement of_generation
step latest before pending earlier e g = elim (Bool-cases (same_int before.0 latest.0)) [
  | inl same ↦
      rw (e, same)
        (IsGreatest-max pending.1 latest.1 (before.1 ∷ of_generation latest.0 earlier) (
          subst (λ a. IsGreatest pending.1 (before.1 ∷ of_generation a earlier))
            (int_sound before.0 latest.0 same) g))
  | inr differs ↦ rw (e, differs) (single latest.1)
]

numbers_of :
    (latest : ℤ × ℤ) (earlier : List (ℤ × ℤ))
    → of_generation latest.0 (latest ∷ earlier) ≡ latest.1 ∷ of_generation latest.0 earlier
unfolding of_generation
numbers_of latest earlier = rw (same_int_refl latest.0) refl

coalesced :
    (latest : ℤ × ℤ) (earlier : List (ℤ × ℤ))
    → IsGreatest (schedule_all latest earlier).1 (latest.1 ∷ of_generation latest.0 earlier)
unfolding schedule_all of_generation
coalesced latest [] = unfold schedule_goal_acknowledgement in single latest.1
coalesced latest (before ∷ earlier) =
    step latest before (schedule_all before earlier) earlier (same_generation before earlier)
      (coalesced before earlier)

-- After calls that found none pending at first, the acknowledgement that waits is of the generation
-- of the latest call, and its number is the greatest of the calls since the generation last
-- changed: a number of another generation is never carried over.
pub schedule_all-IsGreatest :
    (latest : ℤ × ℤ) (earlier : List (ℤ × ℤ))
    → ((schedule_all latest earlier).0 ≡ latest.0)
      × IsGreatest (schedule_all latest earlier).1 (of_generation latest.0 (latest ∷ earlier))
schedule_all-IsGreatest latest earlier = (
  same_generation latest earlier,
  subst (IsGreatest (schedule_all latest earlier).1) (sym (numbers_of latest earlier))
      (coalesced latest earlier),
)

-- ===== src/Prelude/Errors.antt =====
-- Python's exceptions as values: one constructor for each exception class that the modelled code
-- raises or distinguishes (worlds/jak3/persistence.py, location_outbox.py, received_items.py,
-- agents/protocol.py, option_resolution.py). Message texts are left out: `transport` and `proposal`
-- say whether the text holds one of the markers by which `send_command` knows a time-out.
use mathlib.Core.Path.{◌≡◌, refl}
use mathlib.Core.Bool.{Bool, true, false}

pub data Error : Type 0 where
  corruption compatibility binding eligibility stale_revision file_missing closed writer_locked :
      Error
  location_packet value_error injected_fault : Error
  option protocol_mismatch integration_mismatch contract_mismatch not_connected not_published :
      Error
  transport proposal : Bool → Error

pub data Result {ℓ} (A : Type ℓ) : Type ℓ where
  ok : A → Result A
  err : Error → Result A

infixl 10 ◌>>=◌ ◌>>◌
abbrev pub ◌>>=◌ {ℓ κ} : {A : Type ℓ} {B : Type κ} → Result A → (A → Result B) → Result B
err e >>= next = err e
ok a >>= next = next a

abbrev pub ◌>>◌ {ℓ} : {B : Type ℓ} → Result (Unit {0}) → Result B → Result B
check >> rest = check >>= λ _. rest

-- `if not test: raise error`
abbrev pub require : Bool → Error → Result (Unit {0})
require true e = ok tt
require false e = err e

-- a sequence that succeeds has passed its check
pub >>-eq-ok {ℓ} :
    {B : Type ℓ} {end : B} (check : Result (Unit {0})) (rest : Result B)
    → (check >> rest) ≡ ok end
    → (check ≡ ok tt) × (rest ≡ ok end)
>>-eq-ok (err raised) rest returned = cc
>>-eq-ok (ok tt) rest returned = (refl, returned)

-- a chain that succeeds has a value between its two steps
pub >>=-eq-ok {ℓ κ} :
    {B : Type κ} {A : Type ℓ} {end : B} (first : Result A) (next : A → Result B)
    → (first >>= next) ≡ ok end
    → (between : A) × (first ≡ ok between) × (next between ≡ ok end)
>>=-eq-ok (err raised) next returned = cc
>>=-eq-ok (ok between) next returned = (between, refl, returned)

pub ok-injective {ℓ} : {A : Type ℓ} {a b : A} → ok a ≡ ok b → a ≡ b
ok-injective h = cc

pub ok-not-err {ℓ} : {A : Type ℓ} {a : A} {e : Error} → ¬ (ok a ≡ err e)
ok-not-err h = cc

-- a check that passes has found its test true
pub require-ok : (test : Bool) (e : Error) → require test e ≡ ok tt → test ≡ true
require-ok true e h = refl
require-ok false e h = cc

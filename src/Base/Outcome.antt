-- ===== src/Base/Outcome.antt =====
-- A Go call that returns `(value, error)`: an error is its message.
use Prim.Native.String.{String, ◌++◌}
use mathlib.Core.Bool.{Bool, true, false}
use mathlib.Core.Logic.{◌⊎◌, inl, inr}
use mathlib.Core.Path.{◌≡◌, refl}

pub data Outcome {ℓ} (A : Type ℓ) : Type ℓ where
  ok : A → Outcome A
  err : String → Outcome A

-- `if err != nil { return …, err }`, then the rest of the function
infixl 5 ◌>>=◌ ◌>>◌
abbrev pub ◌>>=◌ {ℓ κ} : {A : Type ℓ} {B : Type κ} → Outcome A → (A → Outcome B) → Outcome B
err message >>= rest = err message
ok value >>= rest = rest value

abbrev pub ◌>>◌ {ℓ} : {B : Type ℓ} → Outcome (Unit {0}) → Outcome B → Outcome B
check >> rest = check >>= λ done. rest

-- `if test { return …, fmt.Errorf(message) }`
abbrev pub fail_if : Bool → String → Outcome (Unit {0})
fail_if true message = err message
fail_if false message = ok tt

-- `fmt.Errorf("…: %w", err)`, by the text before the error
abbrev pub wrap {ℓ} : {A : Type ℓ} → String → Outcome A → Outcome A
wrap prefix (ok value) = ok value
wrap prefix (err message) = err (prefix ++ message)

-- `if err := …; err != nil { return err }` of code that changes a state: the state as it then is, or
-- what follows
abbrev pub attempt {ℓ} :
    {S : Type ℓ} → Outcome (Unit {0}) → S → S × Outcome (Unit {0}) → S × Outcome (Unit {0})
attempt (ok done) state rest = rest
attempt (err message) state rest = (state, err message)

-- A call that succeeded, and what follows from it.
pub >>=-eq-ok {ℓ κ} :
    {A : Type ℓ} {B : Type κ} (call : Outcome A) (rest : A → Outcome B) {result : B}
    → (call >>= rest) ≡ ok result
    → (value : A) × (call ≡ ok value) × (rest value ≡ ok result)
>>=-eq-ok (err message) rest h = cc
>>=-eq-ok (ok value) rest h = (value, refl, h)

pub wrap-eq-ok {ℓ} :
    {A : Type ℓ} (prefix : String) (call : Outcome A) {value : A}
    → wrap prefix call ≡ ok value
    → call ≡ ok value
wrap-eq-ok prefix (ok value) h = h
wrap-eq-ok prefix (err message) h = cc

-- A check that passed, and what follows it.
pub fail_if-eq-ok {ℓ} :
    {B : Type ℓ} (test : Bool) (message : String) (rest : Outcome B) {result : B}
    → (fail_if test message >> rest) ≡ ok result
    → (test ≡ false) × (rest ≡ ok result)
fail_if-eq-ok true message rest h = cc
fail_if-eq-ok false message rest h = (refl, h)

pub Outcome-cases {ℓ} :
    {A : Type ℓ} (call : Outcome A)
    → ((value : A) × (call ≡ ok value)) ⊎ ((message : String) × (call ≡ err message))
Outcome-cases (ok value) = inl (value, refl)
Outcome-cases (err message) = inr (message, refl)

-- Two calls that succeed alike have one value.
pub ok_inj {ℓ} : {A : Type ℓ} {a b : A} → ok a ≡ ok b → a ≡ b
ok_inj h = cc

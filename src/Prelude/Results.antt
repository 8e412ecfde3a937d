-- ===== src/Prelude/Results.antt =====
-- What C++ code can do besides returning: the exceptions that the modelled code meets, a failed
-- `assert`, and behaviour that the language leaves undefined (an index out of range, a pointer to
-- an erased node). `blocked` is a read that waits for a frame which has not come, `program_exit` the end
-- of the program by `exit` or a fatal log entry. A call that ends
-- in a fault has no next state.
use mathlib.Core.Path.{◌≡◌, refl}
use mathlib.Core.Logic.{◌⊎◌, inl, inr}
use mathlib.Core.Bool.{Bool, true, false}
use mathlib.Core.Option.{Option, none, some}

pub data Fault : Type 0 where
  invalid_argument out_of_range bad_function_call zmq_error : Fault
  assertion_failed undefined_behaviour blocked program_exit : Fault

pub data Result {ℓ} (T : Type ℓ) : Type ℓ where
  ok : T → Result T
  err : Fault → Result T

-- A condition that the code takes for granted, and a value that it does.
abbrev pub guard : (holds : Bool) → Fault → Result (Unit {0})
guard false fault = err fault
guard true fault = ok tt

abbrev pub or_fault {ℓ} : {T : Type ℓ} → Option T → Fault → Result T
or_fault (some value) fault = ok value
or_fault none fault = err fault

infixl 5 ◌>>=◌ ◌>>◌
-- The next call is made on the value of the last one, and not at all after a fault.
abbrev pub ◌>>=◌ {κ ℓ} : {T : Type κ} {S : Type ℓ} → Result T → (T → Result S) → Result S
err fault >>= next = err fault
ok value >>= next = next value

abbrev pub ◌>>◌ {ℓ} : {S : Type ℓ} → Result (Unit {0}) → Result S → Result S
first >> second = first >>= λ done. second

-- A chain of calls that returns has returned in its first part.
pub >>=-eq-ok {κ ℓ} :
    {T : Type κ} {S : Type ℓ} (first : Result T) (next : T → Result S) {last : S}
    → (first >>= next) ≡ ok last
    → (value : T) × (first ≡ ok value) × (next value ≡ ok last)
>>=-eq-ok (err fault) next e = cc
>>=-eq-ok (ok value) next e = (value, refl, e)

pub Result-cases {ℓ} :
    {A : Type ℓ} (r : Result A) → ((a : A) × (r ≡ ok a)) ⊎ ((e : Fault) × (r ≡ err e))
Result-cases (ok a) = inl (a, refl)
Result-cases (err e) = inr (e, refl)

-- ===== src/Prelude/Result.antt =====
-- Python code that may raise: the value it returns, or the exception.
use mathlib.Core.Path.{◌≡◌, refl}
use mathlib.Core.Logic.{◌⊎◌, inl, inr}
use mathlib.Core.Option.{Option, none, some}
use mathlib.Core.Bool.{Bool, true, false}

-- The exceptions that the modelled code raises. `out_of_fuel` is no Python exception: it marks a
-- modelled loop that was given too few rounds.
pub data Error : Type 0 where
  index_error value_error assertion_error struct_error script_error chain_error out_of_fuel : Error

-- Either the exception that was raised, or what the code returned.
pub data Result {ℓ} (T : Type ℓ) : Type ℓ where
  err : Error → Result T
  ok : T → Result T

-- `if not condition: raise e`
abbrev pub guard : Bool → Error → Result (Unit {0})
guard false exception = err exception
guard true exception = ok tt

-- A lookup that raises on a missing entry.
abbrev pub from_option {ℓ} : {T : Type ℓ} → Option T → Error → Result T
from_option (some found) exception = ok found
from_option none exception = err exception

-- The statements after one that may raise.
infixl 5 ◌>>=◌
abbrev pub ◌>>=◌ {ℓ κ} : {S : Type ℓ} {T : Type κ} → Result S → (S → Result T) → Result T
err exception >>= next = err exception
ok value >>= next = next value

infixl 5 ◌>>◌
abbrev pub ◌>>◌ {ℓ} : {T : Type ℓ} → Result (Unit {0}) → Result T → Result T
check >> next = check >>= λ done. next

pub >>=-eq-ok {ℓ κ} :
    {S : Type ℓ} {T : Type κ} (first : Result S) (next : S → Result T) {out : T}
    → (first >>= next) ≡ ok out
    → (value : S) × (first ≡ ok value) × (next value ≡ ok out)
>>=-eq-ok (err exception) next run = cc
>>=-eq-ok (ok value) next run = (value, refl, run)

pub Result-cases {ℓ} :
    {A : Type ℓ} (r : Result A) → ((a : A) × (r ≡ ok a)) ⊎ ((e : Error) × (r ≡ err e))
Result-cases (ok a) = inl (a, refl)
Result-cases (err e) = inr (e, refl)

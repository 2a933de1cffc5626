-- ===== src/Base/Python.antt =====
-- What a call of a Python function ends in: a value, or the exception that it raises.
use Prim.Native.Nat.{ℕ}
use Prim.Native.String.{String}
use mathlib.Core.Path.{◌≡◌, refl}
use mathlib.Core.Logic.{◌⊎◌, inl, inr}
use mathlib.Core.Bool.{Bool, true, false}
use mathlib.Core.List.{List}

-- A message is its literal text, with `{}` for each place that the source fills in, and the
-- values of those places (a byte string fills one place with its bytes).
pub data Exception : Type 0 where
  system_exit : String → List ℕ → Exception
  value_error : String → List ℕ → Exception
  runtime_error : String → List ℕ → Exception
  index_error : Exception
  struct_error : Exception
  unicode_error : Exception
  assertion_error : Exception
  os_error : Exception
  zero_division_error : Exception

pub data Result {ℓ} (A : Type ℓ) : Type ℓ where
  raise : Exception → Result A
  ok : A → Result A

-- An exception ends the program; a value goes on to the rest of it.
abbrev pub ◌>>=◌ {ℓ κ} :
    {Value : Type ℓ} {Out : Type κ} → Result Value → (Value → Result Out) → Result Out
raise exception >>= rest = raise exception
ok value >>= rest = rest value

abbrev pub ◌>>◌ {ℓ} : {Out : Type ℓ} → Result (Unit {0}) → Result Out → Result Out
check >> rest = check >>= λ done. rest

infixl 5 ◌>>=◌ ◌>>◌
-- `if bad: raise e`
abbrev pub raise_if : Bool → Exception → Result (Unit {0})
raise_if false e = ok tt
raise_if true e = raise e

-- `if bad: fail(message)`, and `raise SystemExit(message)`.
abbrev pub fail_if : Bool → String → List ℕ → Result (Unit {0})
fail_if bad message holes = raise_if bad (system_exit message holes)

-- A program that returned had its first step return a value, and its rest return from there.
pub >>=-eq-ok {ℓ κ} :
    {Value : Type ℓ} {Out : Type κ} {out : Out} (first : Result Value) (rest : Value → Result Out)
    → (first >>= rest) ≡ ok out
    → (value : Value) × (rest value ≡ ok out) × (first ≡ ok value)
>>=-eq-ok (raise exception) rest returned = cc
>>=-eq-ok (ok value) rest returned = (value, returned, refl)

pub Result-cases {ℓ} :
    {Value : Type ℓ} (result : Result Value)
    → ((e : Exception) × (result ≡ raise e)) ⊎ ((value : Value) × (result ≡ ok value))
Result-cases (raise e) = inl (e, refl)
Result-cases (ok value) = inr (value, refl)

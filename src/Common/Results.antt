-- ===== src/Common/Results.antt =====
-- A result or an error, for Go's `(T, error)`.
use mathlib.Core.Path.{◌≡◌, refl}
use mathlib.Core.Logic.{◌⊎◌, inl, inr}

pub data Result {κ} (Failure : Type κ) (Value : Type κ) : Type κ where
  err : Failure → Result Failure Value
  ok : Value → Result Failure Value

-- `if err != nil { return …, err }` between two calls.
abbrev pub ◌>>=◌ {κ} :
    {Failure Value Next : Type κ}
    → Result Failure Value
    → (Value → Result Failure Next)
    → Result Failure Next
err failure >>= _ = err failure
ok value >>= next = next value

infixl 5 ◌>>=◌
abbrev pub map_err {κ} :
    {Failure Wrapped Value : Type κ}
    → (Failure → Wrapped)
    → Result Failure Value
    → Result Wrapped Value
map_err wrap (err failure) = err (wrap failure)
map_err wrap (ok value) = ok value

pub >>=-eq-ok {κ} :
    {Failure Value Next : Type κ} (first : Result Failure Value)
    (next : Value → Result Failure Next) {result : Next}
    → (first >>= next) ≡ ok result
    → (value : Value) × (first ≡ ok value) × (next value ≡ ok result)
>>=-eq-ok (err _) next returned = cc
>>=-eq-ok (ok value) next returned = (value, refl, returned)

pub Result-cases {κ} :
    {Failure Value : Type κ} (outcome : Result Failure Value)
    → ((failure : Failure) × (outcome ≡ err failure)) ⊎ ((value : Value) × (outcome ≡ ok value))
Result-cases (err failure) = inl (failure, refl)
Result-cases (ok value) = inr (value, refl)

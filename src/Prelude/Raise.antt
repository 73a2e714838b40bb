-- ===== src/Prelude/Raise.antt =====
-- Python's exceptions as values: what a call raises, or what it returns.
use mathlib.Core.Path.{◌≡◌, refl}
use mathlib.Core.Logic.{◌⊎◌, inl, inr}
use mathlib.Core.Option.{Option, none, some}

-- The built-in exceptions that the modelled code can meet; `struct_error` is `struct.error`. No Python
-- code raises `out_of_fuel`: it marks a loop of the model that was given too few rounds. Neither does
-- it raise `dangling_reference`: it stands for a C++ program that reads freed memory, of which the
-- model says nothing more.
pub data Exc : Type 0 where
  key_error index_error value_error type_error stop_iteration out_of_fuel overflow_error
        struct_error dangling_reference :
      Exc

-- A call raises (`err`) or returns (`ok`).
pub data Result {ℓ} (R : Type ℓ) : Type ℓ where
  err : Exc → Result R
  ok : R → Result R

-- A lookup that raises where there is nothing: `d[k]`, `next(it)`.
abbrev pub or_raise {ℓ} : {R : Type ℓ} → Exc → Option R → Result R
or_raise exc none = err exc
or_raise exc (some r) = ok r

-- The statement behind a call runs only if the call returned.
infixl 5 ◌>>=◌
abbrev pub ◌>>=◌ {ℓ κ} : {R : Type ℓ} {S : Type κ} → Result R → (R → Result S) → Result S
err exc >>= next = err exc
ok r >>= next = next r

-- To split on a computed result and keep the equation.
pub Result-cases {ℓ} :
    {R : Type ℓ} (res : Result R) → ((exc : Exc) × (res ≡ err exc)) ⊎ ((r : R) × (res ≡ ok r))
Result-cases (err exc) = inl (exc, refl)
Result-cases (ok r) = inr (r, refl)

-- If both statements returned, so did the first, and the second on its value.
pub >>=-eq-ok {ℓ κ} :
    {R : Type ℓ} {S : Type κ} (res : Result R) (next : R → Result S) {s : S}
    → (res >>= next) ≡ ok s
    → (r : R) × (res ≡ ok r) × (next r ≡ ok s)
>>=-eq-ok (err exc) next h = cc
>>=-eq-ok (ok r) next h = (r, refl, h)

-- ===== src/Base/Result.antt =====
-- Fallible code: a value, or the way in which C++ leaves the code.
use mathlib.Core.Path.{◌≡◌, refl}

pub data Error : Type 0 where
  -- `std::out_of_range`, thrown by `substr`
  out_of_range : Error
  -- behaviour that C++ leaves undefined: an end iterator that is read, a division by zero
  undefined_behaviour : Error

-- What is thrown or undefined comes first: nothing after it runs.
pub data Result {ℓ} (Value : Type ℓ) : Type ℓ where
  err : Error → Result Value
  ok : Value → Result Value

infixl 5 ◌>>=◌
abbrev pub ◌>>=◌ {ι κ} : {V : Type ι} {W : Type κ} → Result V → (V → Result W) → Result W
err way >>= next = err way
ok value >>= next = next value

-- A successful bind came from two successful steps.
pub >>=-eq-ok {ι κ} :
    {V : Type ι} {W : Type κ} (first : Result V) (next : V → Result W) {w : W}
    → (first >>= next) ≡ ok w
    → (v : V) × (first ≡ ok v) × (next v ≡ ok w)
>>=-eq-ok (err way) next h = cc
>>=-eq-ok (ok v) next h = (v, refl, h)

pub ok-injective {ι} : {V : Type ι} {v w : V} → ok v ≡ ok w → v ≡ w
ok-injective h = cc

-- What holds of the value, if there is one.
abbrev pub Every {ℓ κ} : {V : Type ℓ} → (V → Type κ) → Result V → Type κ
Every Q (err way) = Unit
Every Q (ok v) = Q v

pub Every-bind {ι κ ρ} :
    {V : Type ι} {W : Type κ} (Q : W → Type ρ) (first : Result V) (next : V → Result W)
    → ((v : V) → Every Q (next v))
    → Every Q (first >>= next)
Every-bind Q (err way) next h = tt
Every-bind Q (ok v) next h = h v

pub Every-value {ℓ κ} :
    {V : Type ℓ} (Q : V → Type κ) {r : Result V} {v : V} → Every Q r → r ≡ ok v → Q v
Every-value Q {r} {v} h e = of_ok (rw e at h)
  where
    of_ok : Every Q (ok v) → Q v
    of_ok k = k

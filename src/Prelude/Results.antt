-- ===== src/Prelude/Results.antt =====
-- What a call that may raise gives back: the exception `err e`, or a value. Each component has an
-- enumeration of its own for what it raises.
use mathlib.Core.Path.{◌≡◌, refl}
use mathlib.Core.Logic.{◌⊎◌, inl, inr}
use native.Mathlib.Omega.{arith}
use mathlib.Core.Bool.{Bool, true, false}

pub data Result {κ} (E : Type 0) (V : Type κ) : Type κ where
  err : E → Result E V
  ok : V → Result E V

-- `if test: raise e`.
abbrev pub raise_if : {E : Type 0} → Bool → E → Result E (Unit {0})
raise_if false e = ok tt
raise_if true e = err e

-- The statements after a call: they run on its value, and an exception leaves the block.
infixl 5 ◌>>=◌
abbrev pub ◌>>=◌ {κ ι} :
    {E : Type 0} {V : Type κ} {W : Type ι} → Result E V → (V → Result E W) → Result E W
err e >>= rest = err e
ok v >>= rest = rest v

infixl 5 ◌>>◌
abbrev pub ◌>>◌ {ι} : {E : Type 0} {W : Type ι} → Result E (Unit {0}) → Result E W → Result E W
check >> rest = check >>= λ done. rest

pub Result-cases {κ} :
    {E : Type 0} {V : Type κ} (r : Result E V) → ((v : V) × (r ≡ ok v)) ⊎ ((e : E) × (r ≡ err e))
Result-cases (err e) = inr (e, refl)
Result-cases (ok v) = inl (v, refl)

err-ne-ok {κ} :
    {E : Type 0} {V : Type κ} (r : Result E V) (e : E) (v : V) → r ≡ err e → r ≡ ok v → ⊥
err-ne-ok r e v h k = ground arith

-- A block that gives a value got one from its first call.
pub bind_inv {κ ι} :
    {E : Type 0} {V : Type κ} {W : Type ι} (r : Result E V) (rest : V → Result E W) (out : W)
    → (r >>= rest) ≡ ok out
    → (v : V) × (r ≡ ok v) × (rest v ≡ ok out)
bind_inv (err e) rest out h = absurd (err-ne-ok (err e) e out refl h)
bind_inv (ok v) rest out h = (v, refl, h)

pub ok_unique {κ} :
    {E : Type 0} {V : Type κ} (r : Result E V) (v w : V) → r ≡ ok v → r ≡ ok w → v ≡ w
ok_unique r v w h k = ground arith

-- A block that gives a value has passed its first check.
pub raise_if_inv {ι} :
    {E : Type 0} {W : Type ι} (test : Bool) (e : E) (rest : Result E W) (out : W)
    → (raise_if test e >> rest) ≡ ok out
    → (test ≡ false) × (rest ≡ ok out)
raise_if_inv false e rest out h = (refl, h)
raise_if_inv true e rest out h = absurd (err-ne-ok (err e) e out refl h)

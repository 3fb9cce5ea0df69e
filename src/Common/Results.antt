-- ===== src/Common/Results.antt =====
-- A call that returns or throws: what was thrown, of the component's own type, or the value.
use mathlib.Core.Path.{◌≡◌, refl}
use mathlib.Core.Logic.{◌⊎◌, inl, inr}
use native.Mathlib.Omega.{arith}

pub data Result {ℓ} (E : Type 0) (V : Type ℓ) : Type ℓ where
  err : E → Result E V
  ok : V → Result E V

module _ {ℓ κ} {E : Type 0} {V : Type ℓ} {W : Type κ} where
  infixl 5 ◌>>=◌ ◌>>◌
  -- The statements after a call run on its value, and a throw skips them.
  abbrev pub ◌>>=◌ : Result E V → (V → Result E W) → Result E W
  ◌>>=◌ call next = elim call [ err thrown ↦ err thrown | ok value ↦ next value ]

  abbrev pub ◌>>◌ : Result E V → Result E W → Result E W
  call >> rest = call >>= λ _. rest

  -- A sequence that returns has a first call that returned, and a rest that returned on its value.
  pub returned :
      (call : Result E V) (next : V → Result E W) {w : W}
      → (call >>= next) ≡ ok w
      → (v : V) × (call ≡ ok v) × (next v ≡ ok w)
  returned (ok v) next h = (v, refl, h)
  returned (err thrown) next h = absurd (ground arith)

-- To split on a computed result and keep the equation.
pub Result-cases {ℓ} :
    {E : Type 0} {V : Type ℓ} (r : Result E V) → ((e : E) × (r ≡ err e)) ⊎ ((v : V) × (r ≡ ok v))
Result-cases (err e) = inl (e, refl)
Result-cases (ok v) = inr (v, refl)

pub ok-inj {ℓ} : {E : Type 0} {V : Type ℓ} {a b : V} → ◌≡◌ {A = Result E V} (ok a) (ok b) → a ≡ b
ok-inj h = cc

pub err_not_ok {ℓ} :
    {E : Type 0} {V : Type ℓ} {e : E} {v : V} → ◌≡◌ {A = Result E V} (err e) (ok v) → ⊥
err_not_ok h = cc

-- ===== src/Prelude/Fallible.antt =====
-- The `(value, error)` pairs of Go: a value, or the error with which the function returns.
use mathlib.Core.Path.{◌≡◌, refl, ap, subst}
use mathlib.Core.Bool.{Bool, true, false}
use nft_firewall_v.Prelude.Tests.{if◌then◌else◌}

pub data Outcome {ℓ κ} (E : Type ℓ) (V : Type κ) : Type (ℓ ⊔ κ) where
  ok : V → Outcome E V
  err : E → Outcome E V

-- `v, err := step(); if err != nil { return err }` before the rest of a function.
infixl 5 ◌>>=◌ ◌>>◌
abbrev pub ◌>>=◌ {ℓ κ μ} :
    {E : Type ℓ} {V : Type κ} {W : Type μ} → Outcome E V → (V → Outcome E W) → Outcome E W
◌>>=◌ step rest = elim step [ err e ↦ err e | ok v ↦ rest v ]

abbrev pub ◌>>◌ {ℓ κ} : {E : Type ℓ} {W : Type κ} → Outcome E (Unit {0}) → Outcome E W → Outcome E W
◌>>◌ step rest = elim step [ err e ↦ err e | ok v ↦ rest ]

-- `if bad { return err }`.
abbrev pub refuse_if {ℓ} : {E : Type ℓ} → Bool → E → Outcome E (Unit {0})
refuse_if true e = err e
refuse_if false e = ok tt

-- Where the rest of a function was reached, its first step gave a value.
pub step_reached {ℓ κ μ} :
    {E : Type ℓ} {V : Type κ} {W : Type μ} (step : Outcome E V) (rest : V → Outcome E W) {w : W}
    → (step >>= rest) ≡ ok w
    → (v : V) × (step ≡ ok v) × (rest v ≡ ok w)
step_reached (err e) rest reached = cc
step_reached (ok v) rest reached = (v, refl, reached)

ok_or {ℓ κ} : {E : Type ℓ} {V : Type κ} → V → Outcome E V → V
ok_or v (ok w) = w
ok_or v (err e) = v

pub ok-injective {ℓ κ} :
    {E : Type ℓ} {V : Type κ} {v w : V} → ◌≡◌ {A = Outcome E V} (ok v) (ok w) → v ≡ w
unfolding ok_or
ok-injective {v = v} h = ap (ok_or v) h

pub refuse_if-eq-ok {ℓ} :
    {E : Type ℓ} (b : Bool) (e : E) {u : Unit {0}} → refuse_if b e ≡ ok u → b ≡ false
refuse_if-eq-ok true e h = cc
refuse_if-eq-ok false e h = refl

-- The same, which proofs go through by its rule.
unfoldable pub guard_against {ℓ} : {E : Type ℓ} → Bool → E → Outcome E (Unit {0})
guard_against bad e = refuse_if bad e

-- `P` holds of the value, where there is one.
pub record WhenOk {ℓ κ μ} {E : Type ℓ} {V : Type κ} (P : V → Type μ) (o : Outcome E V)
    : Type (ℓ ⊔ κ ⊔ μ) where
  pub known : (v : V) → o ≡ ok v → P v

module _ {ℓ κ μ} {E : Type ℓ} {W : Type κ} {P : W → Type μ} where
  pub ok_holds : {w : W} → P w → WhenOk {E = E} P (ok w)
  ok_holds {w} p = record { known = λ v e. subst P (ok-injective e) p }

  pub err_holds : {e : E} → WhenOk P (err e)
  err_holds = record { known = λ v h. cc }

  pub refusal_holds :
      (b : Bool) (e : E) {rest : Outcome E W}
      → (b ≡ false → WhenOk P rest)
      → WhenOk P (guard_against b e >> rest)
  unfolding guard_against
  refusal_holds true e h = record { known = λ v h. cc }
  refusal_holds false e h = h refl

  pub if_holds :
      (b : Bool) {x y : Outcome E W}
      → (b ≡ true → WhenOk P x)
      → (b ≡ false → WhenOk P y)
      → WhenOk P (if b then x else y)
  if_holds true h k = h refl
  if_holds false h k = k refl

  pub step_holds {ν} :
      {V : Type ν} (step : Outcome E V) {rest : V → Outcome E W}
      → ((v : V) → step ≡ ok v → WhenOk P (rest v))
      → WhenOk P (step >>= rest)
  step_holds (err e) h = record { known = λ v h. cc }
  step_holds (ok v) h = h v refl

pub WhenOk-mono {ℓ κ μ ν} :
    {E : Type ℓ} {W : Type κ} {P : W → Type μ} {Q : W → Type ν} {o : Outcome E W}
    → ((w : W) → P w → Q w)
    → WhenOk P o
    → WhenOk Q o
WhenOk-mono f h = record { known = λ v e. f v (h.known v e) }

pub always_holds {ℓ κ μ} :
    {E : Type ℓ} {W : Type κ} {P : W → Type μ} {o : Outcome E W} → ((w : W) → P w) → WhenOk P o
always_holds f = record { known = λ v e. f v }

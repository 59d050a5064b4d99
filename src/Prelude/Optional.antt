-- ===== src/Prelude/Optional.antt =====
-- Steps that give a value or nothing.
use mathlib.Core.Path.{◌≡◌, refl, ap}
use mathlib.Core.Bool.{Bool, true, false}
use mathlib.Core.Option.{Option, none, some}
use nft_firewall_v.Prelude.Tests.{if◌then◌else◌}

some_or {ℓ} : {A : Type ℓ} → A → Option A → A
some_or a none = a
some_or a (some b) = b

pub some-injective {ℓ} : {A : Type ℓ} {a b : A} → some a ≡ some b → a ≡ b
unfolding some_or
some-injective {a = a} h = ap (some_or a) h

-- `P` holds after a step that may fail, if it does where the step gave a value.
pub some_follows {ℓ κ μ} :
    {A : Type ℓ} {B : Type κ} (P : Option B → Type μ) (o : Option A) (f : A → Option B)
    → P none
    → ((a : A) → o ≡ some a → P (f a))
    → P (elim o [ none ↦ none | some a ↦ f a ])
some_follows P none f base step = base
some_follows P (some a) f base step = step a refl

-- Where the rest gave a value, its first step did.
pub some_reached {ℓ κ} :
    {A : Type ℓ} {B : Type κ} (o : Option A) (f : A → Option B) {b : B}
    → elim o [ none ↦ none | some a ↦ f a ] ≡ some b
    → (a : A) × (o ≡ some a) × (f a ≡ some b)
some_reached none f h = cc
some_reached (some a) f h = (a, refl, h)

pub then_reached {ℓ} :
    {A : Type ℓ} (b : Bool) (o : Option A) {a : A}
    → (if b then o else none) ≡ some a
    → (b ≡ true) × (o ≡ some a)
then_reached true o h = (refl, h)
then_reached false o h = cc

pub else_reached {ℓ} :
    {A : Type ℓ} (b : Bool) (o : Option A) {a : A}
    → (if b then none else o) ≡ some a
    → (b ≡ false) × (o ≡ some a)
else_reached false o h = (refl, h)
else_reached true o h = cc

-- ===== src/Base/Outcome.antt =====
-- `Result<T, E>` of lib/utils/result.ts, also for what a function throws.
use mathlib.Core.Path.{◌≡◌, refl, ap}
use mathlib.Core.Bool.{Bool, true, false}
use native.Mathlib.Omega.{arith}
use package.roj.Base.Tests.{if◌then◌else◌}
use mathlib.Core.Logic.{◌⊎◌, inl, inr}

pub data Result {ℓ κ} (E : Type κ) (A : Type ℓ) : Type (ℓ ⊔ κ) where
  ok : A → Result E A
  err : E → Result E A

infixl 5 ◌>>=◌
abbrev pub ◌>>=◌ {ℓ κ ι} :
    {E : Type ι} {A : Type ℓ} {B : Type κ} → Result E A → (A → Result E B) → Result E B
ok a >>= f = f a
err e >>= f = err e

abbrev pub map_ok {ℓ κ ι} :
    {E : Type ι} {A : Type ℓ} {B : Type κ} → (A → B) → Result E A → Result E B
map_ok f (ok a) = ok (f a)
map_ok f (err e) = err e

pub Result-cases {ℓ κ} :
    {E : Type κ} {A : Type ℓ} (r : Result E A) → ((a : A) × (r ≡ ok a)) ⊎ ((e : E) × (r ≡ err e))
Result-cases (ok a) = inl (a, refl)
Result-cases (err e) = inr (e, refl)

abbrev ok_or {ℓ κ} : {E : Type κ} {A : Type ℓ} → A → Result E A → A
ok_or d (ok a) = a
ok_or d (err e) = d

abbrev is_err {ℓ κ} : {E : Type κ} {A : Type ℓ} → Result E A → Bool
is_err (ok a) = false
is_err (err e) = true

pub if_ok {ℓ κ} :
    {E : Type κ} {A : Type ℓ} (b : Bool) (x y : A) (e : E)
    → (if b then ok x else err e) ≡ ok y
    → (b ≡ true) × (x ≡ y)
if_ok true x y e h = (refl, ap (ok_or x) h)
if_ok false x y e h = absurd (let bad = ap is_err h in ground (arith, bad))

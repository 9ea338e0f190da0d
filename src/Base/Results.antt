-- ===== src/Base/Results.antt =====
-- Code that may throw returns a `Result`: `err` holds what was thrown.
use mathlib.Core.Path.{◌≡◌, refl}
use mathlib.Core.Logic.{◌⊎◌, inl, inr}
use mathlib.Core.Bool.{Bool, true, false}

pub data Result {ℓ κ} (E : Type ℓ) (A : Type κ) : Type (ℓ ⊔ κ) where
  err : (thrown : E) → Result E A
  ok : (returned : A) → Result E A

infixl 5 ◌>>◌ ◌>>=◌
-- A check, and what follows it where it returns.
abbrev pub ◌>>◌ {ℓ κ} : {E : Type ℓ} {B : Type κ} → Result E (Unit {0}) → Result E B → Result E B
err e >> k = err e
ok a >> k = k

abbrev pub ◌>>=◌ {ℓ κ μ} :
    {E : Type ℓ} {A : Type κ} {B : Type μ} → Result E A → (A → Result E B) → Result E B
err e >>= f = err e
ok a >>= f = f a

module _ {ℓ κ} {E : Type ℓ} {B : Type κ} where
  -- A sequence of checks succeeds exactly when each of them does.
  pub >>-eq-ok :
      (m : Result E (Unit {0})) (k : Result E B) {b : B}
      → (m >> k) ≡ ok b
      → (m ≡ ok tt) × (k ≡ ok b)
  >>-eq-ok (ok tt) k h = (refl, h)
  >>-eq-ok (err e) k h = cc

  -- What a chain returns comes from the last step, on what the first step returned.
  pub >>=-eq-ok {μ} :
      {A : Type μ} (first : Result E A) (following : A → Result E B) {last : B}
      → (first >>= following) ≡ ok last
      → (between : A) × (first ≡ ok between) × (following between ≡ ok last)
  >>=-eq-ok (err thrown) following h = cc
  >>=-eq-ok (ok between) following h = (between, refl, h)

-- `if (!test) throw e`
abbrev pub require {ℓ} : {E : Type ℓ} → Bool → E → Result E (Unit {0})
require false e = err e
require true e = ok tt

pub require-eq-ok {ℓ} : {E : Type ℓ} (b : Bool) (e : E) → require b e ≡ ok tt → b ≡ true
require-eq-ok true e h = refl
require-eq-ok false e h = cc

pub Result-cases {ℓ κ} :
    {E : Type ℓ} {A : Type κ} (r : Result E A) → ((a : A) × (r ≡ ok a)) ⊎ ((e : E) × (r ≡ err e))
Result-cases (ok a) = inl (a, refl)
Result-cases (err e) = inr (e, refl)

-- ===== src/Result.antt =====
-- `rgit_core::Result`: the error monad that the domain layer's functions return.
use rgit.Common.{◌≡◌, refl, Bool, true, false, if◌then◌else◌}
use rgit.Error.{Error}

pub data Result {ℓ} (A : Type ℓ) : Type ℓ where
  err : Error → Result A
  ok : A → Result A

-- `if !test { return Err(e) }`
abbrev pub ensure : Bool → Error → Result (Unit {0})
ensure test e = if test then ok tt else err e

pub ensure-eq-ok : (test : Bool) (e : Error) → ensure test e ≡ ok tt → test ≡ true
ensure-eq-ok true e h = refl
ensure-eq-ok false e h = cc

-- The operator `?`.
module _ {ℓ κ} {A : Type ℓ} {B : Type κ} where
  infixl 5 ◌>>=◌
  abbrev pub ◌>>=◌ : Result A → (A → Result B) → Result B
  (err e) >>= k = err e
  (ok a) >>= k = k a

  pub bind-eq-ok :
      (r : Result A) (k : A → Result B) {b : B}
      → (r >>= k) ≡ ok b
      → (a : A) × (r ≡ ok a) × (k a ≡ ok b)
  bind-eq-ok (err e) k h = cc
  bind-eq-ok (ok a) k h = (a, refl, h)

module _ {ℓ} {B : Type ℓ} where
  infixl 5 ◌>>◌
  abbrev pub ◌>>◌ : Result (Unit {0}) → Result B → Result B
  first >> then_ = first >>= (λ _. then_)

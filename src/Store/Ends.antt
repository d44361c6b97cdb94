-- ===== src/Store/Ends.antt =====
-- Postconditions of the actions that succeed, with a rule for each way to put actions together.
use rgit.Common.{subst, ◌≡◌, Bool, true, false, if◌then◌else◌}
use rgit.Result.{ok}
use rgit.Store.{World, M, ◌>>=◌, pure}
use rgit.Store.Calls.{bind-eq-ok}

-- Where `m` succeeds, its value and the world after it have the property.
pub record Ends {ℓ κ} {A : Type ℓ} (m : M A) (Q : A → World → Type κ) : Type (ℓ ⊔ κ) where
  pub at : (w v : World) (a : A) → m w ≡ (ok a, v) → Q a v

module _ {ℓ κ μ} {A : Type ℓ} {B : Type κ} {Q : B → World → Type μ} where
  -- What the second action needs comes from the first.
  pub from-Ends :
      (m : M A) (f : A → M B) (P : A → World → Type μ)
      → Ends m P
      → ((a : A) (w v : World) (b : B) → P a w → f a w ≡ (ok b, v) → Q b v)
      → Ends (m >>= f) Q
  from-Ends m f P h k = record {
    at = λ w v b e. let (a, x, i, j) = bind-eq-ok m f w e in k a x v b (h.at w x a i) j;
  }

  -- Only the second action counts.
  pub then-Ends : (m : M A) (f : A → M B) → ((a : A) → Ends (f a) Q) → Ends (m >>= f) Q
  then-Ends m f k = record {
    at = λ w v b e. let (a, x, i, j) = bind-eq-ok m f w e in (k a).at x v b j;
  }

module _ {ℓ κ} {A : Type ℓ} {Q : A → World → Type κ} where
  pub if-Ends : (b : Bool) (m n : M A) → Ends m Q → Ends n Q → Ends (if b then m else n) Q
  if-Ends true m n h k = h
  if-Ends false m n h k = k

module _ {ℓ κ μ} {A : Type ℓ} {B : Type κ} where
  -- A value at the end changes no world.
  pub pure-Ends :
      (m : M A) (b : B) (P : World → Type μ)
      → Ends m (λ _ v. P v)
      → Ends (m >>= (λ _. pure b)) (λ _ v. P v)
  pure-Ends m b P h = record {
    at = λ w v c e.
        let (a, x, i, j) = bind-eq-ok m (λ _. pure b) w e in
        let s : x ≡ v = cc in subst P s (h.at w x a i);
  }

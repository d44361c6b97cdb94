-- ===== src/Store/Starts.antt =====
-- Actions that start no service of Git, whether they succeed or fail.
use rgit.Common.{
  ◌≡◌, refl, ◌∙◌, Bool, true, false, Option, none, some, Bool-cases, inl, inr, if◌then◌else◌,
}
use rgit.Error.{Error}
use rgit.Result.{Result, ok, err}
use rgit.Store.{
  Db, World, M, continue, ◌>>=◌, query, execute, transaction, settle, rollback, pure, fail, lift,
  require, check, map_err, map_error,
}

pub record StartsNone {ℓ} {A : Type ℓ} (m : M A) : Type ℓ where
  pub at : (w : World) → (m w).1.started ≡ w.started

module _ {ℓ} {A : Type ℓ} where
  pub query-StartsNone : (g : Db → A) → StartsNone (query g)
  unfolding query
  query-StartsNone g = record { at = λ w. refl }

  settle-started : (r : Result (A × Db)) (w : World) → (settle r w).1.started ≡ w.started
  settle-started (ok (a, d)) w = refl
  settle-started (err e) w = refl

  pub execute-StartsNone : (f : Db → Result (A × Db)) → StartsNone (execute f)
  unfolding execute
  execute-StartsNone f = record {
    at = λ w. elim (Bool-cases (w.fails w.calls)) [
      | inl t ↦ rw t refl
      | inr n ↦ rw n (settle-started (f w.db) w)
    ];
  }

  rollback-started : (d : Db) (r : Result A × World) → (rollback d r).1.started ≡ r.1.started
  rollback-started d (ok a, w) = elim (Bool-cases (w.fails w.calls)) [
    | inl t ↦ rw t refl
    | inr n ↦ rw n refl
  ]
  rollback-started d (err e, w) = refl

  pub transaction-StartsNone : (m : M A) → StartsNone m → StartsNone (transaction m)
  unfolding transaction
  transaction-StartsNone m h = record {
    at = λ w. elim (Bool-cases (w.fails w.calls)) [
      | inl t ↦ rw t refl
      | inr n ↦ rw n (rollback-started w.db (m _) ∙ h.at _)
    ];
  }

  pub lift-StartsNone : (r : Result A) → StartsNone (lift r)
  lift-StartsNone r = record { at = λ w. refl }

  pub pure-StartsNone : (a : A) → StartsNone (pure a)
  pure-StartsNone a = record { at = λ w. refl }

  pub fail-StartsNone : (e : Error) → StartsNone {A = A} (fail e)
  fail-StartsNone e = record { at = λ w. refl }

  pub require-StartsNone : (o : Option A) (e : Error) → StartsNone (require o e)
  require-StartsNone none e = fail-StartsNone e
  require-StartsNone (some a) e = pure-StartsNone a

  map_error-started :
      (f : Error → Error) (r : Result A × World) → (map_error f r).1.started ≡ r.1.started
  map_error-started f (ok a, w) = refl
  map_error-started f (err e, w) = refl

  pub map_err-StartsNone : (f : Error → Error) (m : M A) → StartsNone m → StartsNone (map_err f m)
  map_err-StartsNone f m h = record { at = λ w. map_error-started f (m w) ∙ h.at w }

  pub if-StartsNone :
      (b : Bool) (m n : M A) → StartsNone m → StartsNone n → StartsNone (if b then m else n)
  if-StartsNone true m n h k = h
  if-StartsNone false m n h k = k

pub check-StartsNone : (b : Bool) (e : Error) → StartsNone (check b e)
check-StartsNone true e = pure-StartsNone tt
check-StartsNone false e = fail-StartsNone e

module _ {ℓ κ} {A : Type ℓ} {B : Type κ} where
  continue-started :
      (r : Result A × World) (f : A → M B)
      → ((a : A) → StartsNone (f a))
      → (continue r f).1.started ≡ r.1.started
  continue-started (ok a, w) f k = (k a).at w
  continue-started (err e, w) f k = refl

  pub bind-StartsNone :
      (m : M A) (f : A → M B) → StartsNone m → ((a : A) → StartsNone (f a)) → StartsNone (m >>= f)
  bind-StartsNone m f h k = record { at = λ w. continue-started (m w) f k ∙ h.at w }

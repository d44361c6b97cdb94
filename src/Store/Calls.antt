-- ===== src/Store/Calls.antt =====
-- What a successful chain of database calls says of its parts.
use rgit.Common.{ℕ, suc, ◌≡◌, refl, false, arith, ◌⊎◌, inl, inr}
use rgit.Error.{Error}
use rgit.Result.{Result, ok, err}
use rgit.Store.{Db, World, M, continue, ◌>>=◌, query, execute, transaction, rollback}

-- No database call of this world fails for an outside reason.
abbrev pub Healthy : World → Type 0
Healthy w = (n : ℕ) → w.fails n ≡ false

module _ {ℓ κ} {A : Type ℓ} {B : Type κ} where
  continue-eq-ok :
      (r : Result A × World) (f : A → M B) {b : B} {w' : World}
      → continue r f ≡ (ok b, w')
      → (a : A) × (v : World) × (r ≡ (ok a, v)) × (f a v ≡ (ok b, w'))
  continue-eq-ok (ok a, v) f h = (a, v, refl, h)
  continue-eq-ok (err e, v) f h = cc

  -- Inversion of a bind that succeeds.
  pub bind-eq-ok :
      (m : M A) (f : A → M B) (w : World) {b : B} {w' : World}
      → (m >>= f) w ≡ (ok b, w')
      → (a : A) × (v : World) × (m w ≡ (ok a, v)) × (f a v ≡ (ok b, w'))
  bind-eq-ok m f w h = continue-eq-ok (m w) f h

-- Inversion of a bind that fails.
module _ {ℓ κ} {A : Type ℓ} {B : Type κ} where
  continue-eq-err :
      (r : Result A × World) (f : A → M B) {e : Error} {w' : World}
      → continue r f ≡ (err e, w')
      → (r ≡ (err e, w')) ⊎ ((a : A) × (v : World) × (r ≡ (ok a, v)) × (f a v ≡ (err e, w')))
  continue-eq-err (ok a, v) f h = inr (a, v, refl, h)
  continue-eq-err (err e, v) f h = inl (ground arith)

  pub bind-eq-err :
      (m : M A) (f : A → M B) (w : World) {e : Error} {w' : World}
      → (m >>= f) w ≡ (err e, w')
      → (m w ≡ (err e, w')) ⊎ ((a : A) × (v : World) × (m w ≡ (ok a, v)) × (f a v ≡ (err e, w')))
  bind-eq-err m f w h = continue-eq-err (m w) f h

-- What a read leaves alone.
pub record Same (w v : World) : Type 0 where
  pub db : v.db ≡ w.db
  pub now : v.now ≡ w.now
  pub fails : v.fails ≡ w.fails
  pub failures : v.failures ≡ w.failures
  pub repos : v.repos ≡ w.repos
  pub git_busy : v.git_busy ≡ w.git_busy

module _ {ℓ} {A : Type ℓ} where
  pub query-eq-ok :
      (g : Db → A) (w v : World) {a : A} → query g w ≡ (ok a, v) → (a ≡ g w.db) × Same w v
  unfolding query
  query-eq-ok g w v h = ground arith

  pub execute-eq-ok :
      (g : Db → Result (A × Db)) (w v : World) {a : A}
      → execute g w ≡ (ok a, v)
      → (g w.db ≡ ok (a, v.db)) × (v.now ≡ w.now) × (v.fails ≡ w.fails)
  unfolding execute
  execute-eq-ok g w v h = ground arith

  rollback-eq-ok :
      (d : Db) (r : Result A × World) (v : World) {a : A}
      → rollback d r ≡ (ok a, v)
      → (u : World) × (r ≡ (ok a, u)) × Same u v
  rollback-eq-ok d (ok b, u) v h = (u, ground arith, ground arith)
  rollback-eq-ok d (err e, u) v h = cc

  -- Where a transaction succeeds its body did, from the same database.
  pub transaction-eq-ok :
      (m : M A) (w v : World) {a : A}
      → transaction m w ≡ (ok a, v)
      → (u : World) × (m (record w { calls = suc w.calls }) ≡ (ok a, u)) × Same u v
  unfolding transaction
  transaction-eq-ok m w v h =
      rollback-eq-ok w.db (m (record w { calls = suc w.calls })) v (ground arith)

  -- Where it fails the database is as before.
  pub transaction-eq-err :
      (m : M A) (w v : World) {e : Error} → transaction m w ≡ (err e, v) → v.db ≡ w.db
  unfolding transaction
  transaction-eq-err m w v h = ground arith

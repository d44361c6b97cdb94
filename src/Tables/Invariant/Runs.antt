-- ===== src/Tables/Invariant/Runs.antt =====
-- Which steps a handler takes: rules for the actions that a handler is put together from.
use rgit.Common.{
  if◌then◌else◌, suc, ◌≡◌, refl, Bool, true, false, Option, none, some, inl, inr, Bool-cases,
}
use rgit.Error.{Error}
use rgit.Result.{Result, ok, err}
use rgit.Store.{
  Db, World, M, continue, ◌>>=◌, pure, lift, check, require, map_err, map_error, query, execute,
  settle, transaction, rollback,
}
use rgit.Tables.Invariant.{Step, Reach, here, next, Invariant}
use rgit.Tables.Invariant.Steps.{Reach-Invariant}

pub Reach-Reach : {a b c : Db} → Reach a b → Reach b c → Reach a c
Reach-Reach r here = r
Reach-Reach r (next s t) = next (Reach-Reach r s) t

-- Whatever calls fail, the action changes the database by steps of the relation.
pub record Runs {ℓ} {A : Type ℓ} (m : M A) : Type 0 where
  pub at : (w : World) → Reach w.db (m w).1.db

-- The table is written only as the relation allows.
abbrev pub Writes {ℓ} : {A : Type ℓ} → (Db → Result (A × Db)) → Type ℓ
Writes {A = A} g = (a : A) (d d' : Db) → g d ≡ ok (a, d') → Step d d'

module _ {ℓ κ} {A : Type ℓ} {B : Type κ} where
  continue-Runs :
      (d : Db) (r : Result A × World) (f : A → M B)
      → Reach d r.1.db
      → ((a : A) → Runs (f a))
      → Reach d (continue r f).1.db
  continue-Runs d (ok a, w) f h k = Reach-Reach h ((k a).at w)
  continue-Runs d (err e, w) f h k = h

  pub bind-Runs : (m : M A) (f : A → M B) → Runs m → ((a : A) → Runs (f a)) → Runs (m >>= f)
  bind-Runs m f h k = record { at = λ w. continue-Runs w.db (m w) f (h.at w) k }

module _ {ℓ} {A : Type ℓ} where
  pub pure-Runs : (a : A) → Runs (pure a)
  pure-Runs a = record { at = λ w. here }

  pub lift-Runs : (r : Result A) → Runs (lift r)
  lift-Runs r = record { at = λ w. here }

  pub require-Runs : (a : Option A) (e : Error) → Runs (require a e)
  require-Runs none e = record { at = λ w. here }
  require-Runs (some a) e = record { at = λ w. here }

  pub query-Runs : (g : Db → A) → Runs (query g)
  unfolding query
  query-Runs g = record { at = λ w. here }

  settle-Runs :
      (w : World) (r : Result (A × Db))
      → ((a : A) (d' : Db) → r ≡ ok (a, d') → Step w.db d')
      → Reach w.db (settle r w).1.db
  settle-Runs w (ok (a, d')) h = next here (h a d' refl)
  settle-Runs w (err e) h = here

  pub execute-Runs : (g : Db → Result (A × Db)) → Writes g → Runs (execute g)
  unfolding execute
  execute-Runs g h = record {
    at = λ w. elim (Bool-cases (w.fails w.calls)) [
      | inl t ↦ rw t here
      | inr f ↦ rw f (settle-Runs w (g w.db) (λ a d' e. h a w.db d' e))
    ];
  }

  map_error-Runs :
      (d : Db) (f : Error → Error) (r : Result A × World)
      → Reach d r.1.db
      → Reach d (map_error f r).1.db
  map_error-Runs d f (ok a, w) h = h
  map_error-Runs d f (err e, w) h = h

  pub map_err-Runs : (f : Error → Error) (m : M A) → Runs m → Runs (map_err f m)
  map_err-Runs f m h = record { at = λ w. map_error-Runs w.db f (m w) (h.at w) }

  rollback-Runs :
      (d : Db) (r : Result A × World)
      → ((a : A) (u : World) → r ≡ (ok a, u) → Reach d u.db)
      → Reach d (rollback d r).1.db
  rollback-Runs d (ok a, u) h = elim (Bool-cases (u.fails u.calls)) [
    | inl t ↦ rw t here
    | inr f ↦ rw f (h a u refl)
  ]
  rollback-Runs d (err e, u) h = here

  -- Only what the body does where it succeeds counts.
  pub transaction-Runs :
      (m : M A) → ((a : A) (w u : World) → m w ≡ (ok a, u) → Reach w.db u.db) → Runs (transaction m)
  unfolding transaction
  transaction-Runs m h = record {
    at = λ w.
        let v : World = record w { calls = suc w.calls } in
        elim (Bool-cases (w.fails w.calls)) [
          | inl t ↦ rw t here
          | inr f ↦ rw f (rollback-Runs w.db (m v) (λ a u e. h a v u e))
        ];
  }

pub check-Runs : (b : Bool) (e : Error) → Runs (check b e)
check-Runs true e = record { at = λ w. here }
check-Runs false e = record { at = λ w. here }

module _ {ℓ} {A : Type ℓ} where
  pub if-Runs : (b : Bool) (m n : M A) → Runs m → Runs n → Runs (if b then m else n)
  if-Runs true m n h k = h
  if-Runs false m n h k = k

  map_error-eq-ok :
      (f : Error → Error) (r : Result A × World) {a : A} {v : World}
      → map_error f r ≡ (ok a, v)
      → r ≡ (ok a, v)
  map_error-eq-ok f (ok b, w) h = h
  map_error-eq-ok f (err e, w) h = cc

  pub map_err-eq-ok :
      (f : Error → Error) (m : M A) (w v : World) {a : A}
      → map_err f m w ≡ (ok a, v)
      → m w ≡ (ok a, v)
  map_err-eq-ok f m w v h = map_error-eq-ok f (m w) h

  pub Runs-Invariant : (m : M A) (w : World) → Runs m → Invariant w.db → Invariant (m w).1.db
  Runs-Invariant m w r v = Reach-Invariant (r.at w) v

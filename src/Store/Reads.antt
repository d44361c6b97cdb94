-- ===== src/Store/Reads.antt =====
-- Actions that only read: whether they succeed or fail, the tables and the disk are as before.
use rgit.Common.{◌≤◌, ◌≡◌, refl, ◌∙◌, Bool, true, false, Option, none, some, arith, if◌then◌else◌}
use rgit.Error.{Error}
use rgit.Result.{Result, ok, err}
use rgit.Store.{Db, World, M, continue, ◌>>=◌, query, pure, fail, require, check}

pub record Kept (w v : World) : Type 0 where
  pub db : v.db ≡ w.db
  pub fails : v.fails ≡ w.fails
  pub repos : v.repos ≡ w.repos
  pub calls : w.calls ≤ v.calls

pub Kept-refl : (w : World) → Kept w w
Kept-refl w = record { db = refl; fails = refl; repos = refl; calls = omega arith }

pub Kept-trans : (w v u : World) → Kept w v → Kept v u → Kept w u
Kept-trans w v u h k = record {
  db = k.db ∙ h.db;
  fails = k.fails ∙ h.fails;
  repos = k.repos ∙ h.repos;
  calls = omega (arith, h.calls, k.calls);
}

pub record Reads {ℓ} {A : Type ℓ} (m : M A) : Type ℓ where
  pub at : (w : World) → Kept w (m w).1

module _ {ℓ} {A : Type ℓ} where
  pub query-Reads : (g : Db → A) → Reads (query g)
  unfolding query
  query-Reads g = record {
    at = λ w. record { db = refl; fails = refl; repos = refl; calls = omega arith };
  }

  pub pure-Reads : (a : A) → Reads (pure a)
  pure-Reads a = record { at = λ w. Kept-refl w }

  pub fail-Reads : (e : Error) → Reads {A = A} (fail e)
  fail-Reads e = record { at = λ w. Kept-refl w }

  pub require-Reads : (o : Option A) (e : Error) → Reads (require o e)
  require-Reads none e = fail-Reads e
  require-Reads (some a) e = pure-Reads a

pub check-Reads : (b : Bool) (e : Error) → Reads (check b e)
check-Reads true e = pure-Reads tt
check-Reads false e = fail-Reads e

module _ {ℓ κ} {A : Type ℓ} {B : Type κ} where
  continue-Kept :
      (f : A → M B)
      → ((a : A) → Reads (f a))
      → (w : World) (r : Result A × World) → Kept w r.1
      → Kept w (continue r f).1
  continue-Kept f k w (ok a, v) h = Kept-trans w v (f a v).1 h ((k a).at v)
  continue-Kept f k w (err e, v) h = h

  pub bind-Reads : (m : M A) (f : A → M B) → Reads m → ((a : A) → Reads (f a)) → Reads (m >>= f)
  bind-Reads m f h k = record { at = λ w. continue-Kept f k w (m w) (h.at w) }

pub if-Reads {ℓ} :
    {A : Type ℓ} (b : Bool) (m n : M A) → Reads m → Reads n → Reads (if b then m else n)
if-Reads true m n h k = h
if-Reads false m n h k = k

-- ===== src/Outcome.antt =====
-- The handlers that answer with a response of their own, as those of handlers/lfs.rs do: the answer is
-- the data, or a status and a message.
use rgit.Common.{ℕ, Str}
use rgit.Result.{Result}
use rgit.Store.{World, M}

pub data Outcome {ℓ} (A : Type ℓ) : Type ℓ where
  done : A → Outcome A
  refused : (status : ℕ) (message : Str) → Outcome A

abbrev pub L {ℓ} : Type ℓ → Type ℓ
L A = World → Outcome A × World

module _ {ℓ κ} {A : Type ℓ} {B : Type κ} where
  abbrev pub continue : Outcome A × World → (A → L B) → Outcome B × World
  continue (done a, w) f = f a w
  continue (refused s m, w) f = (refused s m, w)

  infixl 5 ◌>>=◌
  abbrev pub ◌>>=◌ : L A → (A → L B) → L B
  ◌>>=◌ m f w = continue (m w) f

  abbrev pub matched : Result A × World → (Result A → L B) → Outcome B × World
  matched (r, w) k = k r w

  -- A `match` on the result of an action of the database.
  abbrev pub match_on : M A → (Result A → L B) → L B
  match_on m k w = matched (m w) k

infixl 5 ◌>>◌
abbrev pub ◌>>◌ {ℓ} : {B : Type ℓ} → L (Unit {0}) → L B → L B
m >> n = m >>= λ _. n

module _ {ℓ} {A : Type ℓ} where
  abbrev pub refuse : ℕ → Str → L A
  refuse status message w = (refused status message, w)

  abbrev pub give : A → L A
  give a w = (done a, w)

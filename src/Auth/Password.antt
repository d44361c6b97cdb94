-- ===== src/Auth/Password.antt =====
-- crates/rgit-core/src/auth/password.rs. bcrypt is an argument; a worker that is not free within
-- the wait counts as a failed call.
use rgit.Common.{
  ℕ, suc, Str, text, ◌++◌, Bool, false, ltb, length, byte_len, Option, none, some, if◌then◌else◌,
}
use rgit.Error.{invalid, internal}
use rgit.Result.{Result, ok, err}
use rgit.Store.{M}

pub record Bcrypt : Type 0 where
  -- bcrypt::hash(plain, cost), and bcrypt::verify with its errors read as false
  pub hash : Str → ℕ → Option Str
  pub verify : Str → Str → Bool

module _ (bcrypt : Bcrypt) where
  unfoldable pub verify_password : Str → Str → Bool
  verify_password plain hash = if ltb 72 (byte_len plain) then false else bcrypt.verify plain hash

  unfoldable pub verify_password_async : Str → Str → M Bool
  unfolding verify_password
  verify_password_async plain hash w = (
    ok (if w.fails w.calls then false else verify_password plain hash),
    record w { calls = suc w.calls },
  )

  abbrev hashed : Option Str → Result Str
  hashed none = err internal
  hashed (some h) = ok h

  unfoldable pub hash_password_async : Str → ℕ → M Str
  hash_password_async plain cost w = (
    if w.fails w.calls then err internal else hashed (bcrypt.hash plain cost),
    record w { calls = suc w.calls },
  )

-- `decimal` prints the number into the message.
unfoldable pub check_password_policy : (ℕ → Str) → Str → ℕ → Result (Unit {0})
check_password_policy decimal plain min_len =
    if ltb (length plain) min_len
    then err (invalid (text "password must be at least " ++ decimal min_len ++ text " characters"))
    else if ltb 72 (byte_len plain)
    then err (invalid (text "password must be at most 72 UTF-8 bytes"))
    else ok tt

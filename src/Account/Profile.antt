-- ===== src/Account/Profile.antt =====
-- crates/rgit-http/src/handlers/api/user.rs.
pub mod Changed
use rgit.Common.{
  ℕ, Str, text, Bool, true, false, not, ◌&&◌, ◌==◌, Option, none, some, List, any, find, retain,
  map, contains, str_eq, is_some, if◌then◌else◌,
}
use rgit.Error.{Error, db, unique_violation, row_not_found, conflict, invalid}
use rgit.Result.{Result, ok, err}
use rgit.Models.{User, Session}
use rgit.Store.{Db, World, M, query, execute, transaction, pure, lift, check, map_err, ◌>>=◌, ◌>>◌}
use rgit.Tables.Groups.{coalesce}
use rgit.Tables.Users.{email_taken}
use rgit.Auth.Token.{now}
use rgit.Auth.Password.{verify_password_async, hash_password_async, check_password_policy}
use rgit.Admin.{Passwords, delete_sessions}

pub record UpdateProfile : Type 0 where
  pub name : Option Str
  pub email : Option Str

pub record ChangePassword : Type 0 where
  pub current_password : Str
  pub new_password : Str

abbrev pub has_at : Option Str → Bool
has_at none = true
has_at (some email) = contains b'@' email

abbrev pub patched : UpdateProfile → ℕ → User → User
patched req t u = record u {
  name = coalesce req.name u.name;
  email = coalesce req.email u.email;
  updated_at = t;
}

abbrev pub set_user : ℕ → (User → User) → Db → Db
set_user id f d = record d { users = map (λ u. if u.id == id then f u else u) d.users }

abbrev pub row_of : Option User → Db → Result (User × Db)
row_of none d = err (db row_not_found)
row_of (some u) d = ok (u, d)

-- UPDATE users SET … WHERE id = ? RETURNING *
unfoldable pub update_row : ℕ → UpdateProfile → ℕ → Db → Result (User × Db)
update_row id req t d =
    if email_taken id req.email d.users && any (λ u. u.id == id) d.users
    then err (db unique_violation)
    else row_of (find (λ u. u.id == id) (set_user id (patched req t) d).users)
        (set_user id (patched req t) d)

abbrev pub email_in_use : Error → Error
email_in_use (db unique_violation) = conflict (text "email already in use")
email_in_use e = e

unfoldable pub update_profile : User → UpdateProfile → M User
update_profile user req =
    check (has_at req.email) (invalid (text "invalid email"))
    >> (now >>= (λ t. map_err email_in_use (execute (update_row user.id req t))))

-- UPDATE users SET password_hash = ?, updated_at = datetime('now') WHERE id = ?
abbrev pub set_password : ℕ → Str → ℕ → Db → Result (Unit {0} × Db)
set_password id hash t d =
    ok (tt, set_user id (λ u. record u { password_hash = hash; updated_at = t }) d)

module _ (passwords : Passwords) where
  abbrev pub replace_password : ℕ → Str → ℕ → M (Unit {0})
  replace_password id hash t =
      execute (set_password id hash t)
      >> (execute (delete_sessions passwords id) >>= (λ _. pure tt))

  unfoldable pub change_password : User → ChangePassword → M (Unit {0})
  change_password user req =
      verify_password_async passwords.bcrypt req.current_password user.password_hash
      >>= (λ verified.
          check verified (invalid (text "current password is incorrect"))
          >> (lift (check_password_policy passwords.decimal req.new_password passwords.min_length)
              >> (hash_password_async passwords.bcrypt req.new_password passwords.cost
                  >>= (λ hash. now >>= (λ t. transaction (replace_password user.id hash t))))))

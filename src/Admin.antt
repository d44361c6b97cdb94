-- ===== src/Admin.antt =====
-- crates/rgit-http/src/handlers/api/admin.rs. The caller is the admin that RequireAdmin hands over.
pub mod Steps
pub mod Blocked
use rgit.Common.{
  ℕ, suc, ◌+◌, Str, text, ◌++◌, Bool, true, false, not, ◌&&◌, ◌||◌, ◌==◌, ltb, leb, Option, none,
  some, List, [], ◌∷◌, ℤ, pos, eq_ℤ, any, retain, find, map, length, take, drop, str_eq, contains,
  trim, is_some, if◌then◌else◌,
}
use rgit.Error.{Error, db, aborted, unique_violation, not_found, conflict, invalid}
use rgit.Result.{Result, ok, err}
use rgit.Models.{User, Namespace, Project, GroupMember, LfsObject, active, blocked, is_active}
use rgit.PathSegment.{validate_path_segment, is_reserved_root}
use rgit.Store.{
  Db, World, M, query, execute, transaction, pure, fail, lift, check, require, map_err, ◌>>=◌, ◌>>◌,
}
use rgit.Auth.Authorize.{is_id}
use rgit.Auth.Token.{now}
use rgit.Auth.Password.{Bcrypt, check_password_policy, hash_password_async}
use rgit.Pagination.{Pagination, page_of}
use rgit.Tables.Groups.{is_owner, user_kind, insert_namespace, group_kind}
use rgit.Tables.Users.{
  UserPatch, admin_text, is_active_admin, insert_user, update_user as update_row,
  delete_user as delete_row, is_owned,
}

-- `config.auth`, bcrypt, and the printing of a number
pub record Passwords : Type 0 where
  pub bcrypt : Bcrypt
  pub cost : ℕ
  pub min_length : ℕ
  pub decimal : ℕ → Str

abbrev pub map_admin_invariant : Error → Error
map_admin_invariant (db (aborted m)) =
    if str_eq m admin_text then conflict admin_text else db (aborted m)
map_admin_invariant e = e

abbrev pub user_taken : Error → Error
user_taken (db unique_violation) = conflict (text "username or email already taken")
user_taken e = e

-- A query's rows are in the order of `id`.
unfoldable pub list_users : Pagination → M (List User × ℕ)
list_users page = do
  total ← query (λ d. length d.users)
  users ← query (λ d. page_of page d.users)
  pure (users, total)

unfoldable pub list_projects : Pagination → M (List Project × ℕ)
list_projects page = do
  total ← query (λ d. length d.projects)
  projects ← query (λ d. page_of page d.projects)
  pure (projects, total)

abbrev pub new_user : (username email name hash : Str) → Bool → User
new_user username email name hash is_admin = record {
  id = 0;
  username = username;
  email = email;
  name = trim name;
  password_hash = hash;
  is_admin = is_admin;
  state = active;
  updated_at = 0;
}

abbrev pub user_namespace : User → Namespace
user_namespace u = record {
  id = 0;
  path = u.username;
  name = u.name;
  kind = user_kind;
  owner_user_id = some u.id;
  description = [];
  updated_at = 0;
}

abbrev pub user_row : User → M User
user_row u = map_err user_taken (execute (insert_user u))

abbrev pub namespace_row : User → M Namespace
namespace_row u = execute (insert_namespace (user_namespace u))

-- The user, and the namespace that is the user's.
abbrev pub create_rows : User → M User
create_rows u = user_row u >>= (λ user. namespace_row user >>= (λ _. pure user))

module _ (passwords : Passwords) where
  abbrev pub policy : Str → Result (Unit {0})
  policy p = check_password_policy passwords.decimal p passwords.min_length

  unfoldable pub create_user : (username email name password : Str) → Bool → M User
  create_user username email name password is_admin = do
    lift (validate_path_segment username)
    check (not (is_reserved_root username)) (invalid (text "username is reserved"))
    check (contains b'@' email) (invalid (text "invalid email"))
    lift (policy password)
    hash ← hash_password_async passwords.bcrypt password passwords.cost
    transaction (create_rows (new_user username email name hash is_admin))

  -- A reset password is checked and hashed.
  abbrev pub hash_reset : Option Str → M (Option Str)
  hash_reset none = pure none
  hash_reset (some p) = do
    lift (policy p)
    hash ← hash_password_async passwords.bcrypt p passwords.cost
    pure (some hash)

  abbrev pub check_email : Option Str → M (Unit {0})
  check_email none = pure tt
  check_email (some e) = check (contains b'@' e) (invalid (text "invalid email"))

  abbrev pub check_state : Bool → Option Str → M (Unit {0})
  check_state self none = pure tt
  check_state self (some s) = do
    check (str_eq s active || str_eq s blocked) (invalid (text "state must be active or blocked"))
    check (not (self && str_eq s blocked)) (invalid (text "cannot block yourself"))

  abbrev pub blocks : Option Str → Bool
  blocks none = false
  blocks (some s) = str_eq s blocked

  abbrev pub demotes : Option Bool → Bool
  demotes none = false
  demotes (some b) = not b

  abbrev pub keep_admin : Bool → M (Unit {0})
  keep_admin false = pure tt
  keep_admin true = do
    active_admins ← query (λ d. length (retain is_active_admin d.users))
    check (not (leb active_admins 1)) (conflict admin_text)

  abbrev pub delete_sessions : ℕ → Db → Result (ℕ × Db)
  delete_sessions id d = ok (
    length (retain (λ s. s.user_id == id) d.sessions),
    record d { sessions = retain (λ s. not (s.user_id == id)) d.sessions },
  )

  -- Blocking or resetting a password kills the user's sessions.
  abbrev pub kill_sessions : Bool → ℕ → M (Unit {0})
  kill_sessions false id = pure tt
  kill_sessions true id = execute (delete_sessions id) >>= (λ _. pure tt)

  abbrev pub write_user : ℕ → UserPatch → ℕ → M User
  write_user id patch t = map_err map_admin_invariant (execute (update_row id patch t)) >>= (λ row.
      require row not_found >>= (λ user.
        kill_sessions (blocks patch.state || is_some patch.password_hash) id >> pure user))

  -- `password_hash` of the request holds the plain password.
  unfoldable pub update_user : User → ℕ → UserPatch → M User
  update_user admin id req = do
    check_email req.email
    check_state (id == admin.id) req.state
    found ← query (λ d. find (λ (u : User). u.id == id) d.users)
    current ← require found not_found
    keep_admin (is_active_admin current && (demotes req.is_admin || blocks req.state))
    hash ← hash_reset req.password_hash
    t ← now
    transaction (write_user id (record req { password_hash = hash }) t)

-- The groups of which the user is the only owner.
abbrev sole_owner : ℕ → Db → GroupMember → Bool
sole_owner id d m =
    m.user_id == id
    && eq_ℤ m.access_level (pos 50)
    && not (any (λ o. is_owner m.namespace_id o && not (o.user_id == id)) d.group_members)

abbrev pub owned_projects : ℕ → Db → List Project
owned_projects id d =
    retain (λ p. any (λ n. n.id == p.namespace_id && is_owned id n) d.namespaces) d.projects

unfoldable pub delete_user : User → ℕ → M (Unit {0})
delete_user admin id = do
  check (not (id == admin.id)) (invalid (text "cannot delete yourself"))
  owned ← query (λ d. length (owned_projects id d))
  check (owned == 0) (conflict (text "user still owns projects; transfer or delete them first"))
  sole_group_owner ← query (λ d. length (retain (sole_owner id d) d.group_members))
  check (sole_group_owner == 0) (conflict (text "user is the sole owner of one or more groups"))
  affected ← map_err map_admin_invariant (execute (delete_row id))
  check (not (affected == 0)) not_found

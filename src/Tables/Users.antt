-- ===== src/Tables/Users.antt =====
-- `users`, with the triggers of migration 0003.
pub mod Admins
use rgit.Common.{
  ℕ, Str, text, Bool, false, not, ◌&&◌, ◌||◌, ◌==◌, Option, none, some, List, ◌∷◌, any, find,
  retain, map, length, nocase, if◌then◌else◌,
}
use rgit.Error.{db, aborted, unique_violation, foreign_key_violation}
use rgit.Result.{Result, ok, err}
use rgit.Models.{User, Namespace, Project, is_active}
use rgit.Store.{Db}
use rgit.Auth.Authorize.{is_id}
use rgit.Tables.Groups.{next_id, coalesce, last_owner, owner_text}

abbrev pub admin_text : Str
admin_text = text "instance must retain at least one active admin"

abbrev pub is_active_admin : User → Bool
is_active_admin u = u.is_admin && is_active u

-- The condition of both triggers: the row is the last active admin.
abbrev pub last_admin : Db → User → Bool
last_admin d old =
    is_active_admin old && not (any (λ u. not (u.id == old.id) && is_active_admin u) d.users)

-- `username` and `email` are unique up to ASCII case.
unfoldable pub insert_user : User → Db → Result (User × Db)
insert_user u d =
    if any (λ r. nocase r.username u.username || nocase r.email u.email) d.users
    then err (db unique_violation)
    else (let row = record u { id = next_id (λ (r : User). r.id) d.users } in
        ok (row, record d { users = row ∷ d.users }))

-- The columns of an UPDATE through COALESCE.
pub record UserPatch : Type 0 where
  pub name : Option Str
  pub email : Option Str
  pub is_admin : Option Bool
  pub state : Option Str
  pub password_hash : Option Str

abbrev pub patch_user : UserPatch → ℕ → User → User
patch_user p now u = record u {
  name = coalesce p.name u.name;
  email = coalesce p.email u.email;
  is_admin = coalesce p.is_admin u.is_admin;
  state = coalesce p.state u.state;
  password_hash = coalesce p.password_hash u.password_hash;
  updated_at = now;
}

abbrev pub email_taken : ℕ → Option Str → List User → Bool
email_taken id none rows = false
email_taken id (some e) rows = any (λ u. nocase u.email e && not (u.id == id)) rows

-- UPDATE users SET … WHERE id = ? RETURNING *
unfoldable pub update_user : ℕ → UserPatch → ℕ → Db → Result (Option User × Db)
update_user id p now d = elim (find (λ u. u.id == id) d.users) [
  | none ↦ ok (none, d)
  | some old ↦
      if last_admin d old && not (is_active_admin (patch_user p now old))
      then err (db (aborted admin_text))
      else if email_taken id p.email d.users
      then err (db unique_violation)
      else ok (
        some (patch_user p now old),
        record d { users = map (λ u. if u.id == id then patch_user p now u else u) d.users },
      )
]

abbrev pub is_owned : ℕ → Namespace → Bool
is_owned id n = is_id n.owner_user_id id

-- A project in a namespace of the user, which holds the user back.
abbrev pub in_owned : Db → ℕ → Project → Bool
in_owned d id p = any (λ n. is_owned id n && n.id == p.namespace_id) d.namespaces

abbrev pub cascade : Db → ℕ → Db
cascade d id = record d {
  users = retain (λ u. not (u.id == id)) d.users;
  namespaces = retain (λ n. not (is_owned id n)) d.namespaces;
  group_members =
      retain
        (λ m.
          not (m.user_id == id || any (λ n. is_owned id n && n.id == m.namespace_id) d.namespaces))
        d.group_members;
  project_members = retain (λ m. not (m.user_id == id)) d.project_members;
  ssh_keys = retain (λ k. not (k.user_id == id)) d.ssh_keys;
  tokens = retain (λ t. not (t.user_id == id)) d.tokens;
  sessions = retain (λ s. not (s.user_id == id)) d.sessions;
  lfs_auth_tokens = retain (λ t. not (t.user_id == id)) d.lfs_auth_tokens;
}

-- DELETE FROM users WHERE id = ?, with ON DELETE CASCADE: the rows of `group_members` go, and their trigger fires,
-- before the user's namespaces do.
unfoldable pub delete_user : ℕ → Db → Result (ℕ × Db)
delete_user id d =
    if any (λ u. u.id == id && last_admin d u) d.users
    then err (db (aborted admin_text))
    else if any (λ m. m.user_id == id && last_owner d m) d.group_members
    then err (db (aborted owner_text))
    else if any (in_owned d id) d.projects
    then err (db foreign_key_violation)
    else ok (length (retain (λ u. u.id == id) d.users), cascade d id)

-- ===== src/Groups.antt =====
-- crates/rgit-http/src/handlers/api/groups.rs. The caller is the user that RequireUser hands over;
-- a handler returns the data of its answer, and an error stands for the error response.
pub mod Steps
use rgit.Common.{
  ℕ, Str, text, Bool, true, false, not, ◌&&◌, ◌||◌, ◌==◌, Option, none, some, List, [], ◌∷◌, ℤ, pos,
  eq_ℤ, leb_ℤ, leb, any, find, retain, length, is_some, str_eq, nocase, is_empty, byte_len, trim,
  parse_i64, if◌then◌else◌,
}
use rgit.Error.{
  Error, db, not_found, forbidden, conflict, invalid, aborted, unique_violation,
  foreign_key_violation,
}
use rgit.Result.{Result, ok, err}
use rgit.Perm.{level_from_i32}
use rgit.Models.{User, Namespace, GroupMember}
use rgit.PathSegment.{validate_path_segment, is_reserved_root}
use rgit.Store.{
  Db, M, query, execute, transaction, pure, lift, check, require, map_err, ◌>>=◌, ◌>>◌,
}
use rgit.Auth.Token.{now}
use rgit.Tables.Groups.{
  owner_text, group_kind, is_member, is_owner, upsert_group_member, insert_group_member,
  delete_group_member, insert_namespace, delete_group, update_group,
}

-- Whether the error's text contains the trigger's message.
abbrev map_group_owner_invariant : Error → Error
map_group_owner_invariant (db (aborted m)) =
    if str_eq m owner_text then conflict owner_text else db (aborted m)
map_group_owner_invariant e = e

abbrev pub path_taken_error : Error → Error
path_taken_error (db unique_violation) = conflict (text "path already taken")
path_taken_error e = e

abbrev member_error : Error → Error
member_error (db foreign_key_violation) = invalid (text "group or user does not exist")
member_error e = map_group_owner_invariant e

abbrev pub level_or_zero : Option GroupMember → ℤ
level_or_zero none = pos 0
level_or_zero (some m) = m.access_level

-- The level of the user's row, or 0.
abbrev pub level_in : ℕ → ℕ → Db → ℤ
level_in ns_id user_id d = level_or_zero (find (is_member ns_id user_id) d.group_members)

unfoldable pub group_level : ℕ → ℕ → M ℤ
group_level ns_id user_id = query (level_in ns_id user_id)

abbrev pub group_by_id : ℤ → Namespace → Bool
group_by_id id n = eq_ℤ (pos n.id) id && str_eq n.kind group_kind

abbrev group_by_path : Str → Namespace → Bool
group_by_path path n = nocase n.path path && str_eq n.kind group_kind

abbrev find_group : Str → Option ℤ → Db → Option Namespace
find_group s (some id) d = find (group_by_id id) d.namespaces
find_group s none d = find (group_by_path s) d.namespaces

unfoldable pub locate_group : Str → M Namespace
locate_group id_or_path = do
  group ← query (find_group id_or_path (parse_i64 id_or_path))
  require group not_found

-- `locate_group(&id.to_string())` for the number of a route
unfoldable pub locate_group_id : ℕ → M Namespace
locate_group_id id = do
  group ← query (λ d. find (group_by_id (pos id)) d.namespaces)
  require group not_found

unfoldable pub validate_name : Str → Result Str
validate_name name =
    if is_empty (trim name) || not (leb (byte_len (trim name)) 255)
    then err (invalid (text "name must be between 1 and 255 bytes"))
    else ok (trim name)

-- `!user.is_admin && group_level(…) < AccessLevel::Owner` is refused.
abbrev pub require_owner : User → ℕ → M (Unit {0})
require_owner user id =
    if user.is_admin
    then pure tt
    else (do level ← group_level id user.id; check (leb_ℤ (pos 50) level) forbidden)

-- Members and admins may look; to others the group does not exist.
abbrev require_member : User → ℕ → M (Unit {0})
require_member user id =
    if user.is_admin
    then pure tt
    else (do level ← group_level id user.id; check (not (eq_ℤ level (pos 0))) not_found)

unfoldable pub get : User → Str → M Namespace
get user id = do group ← locate_group id; require_member user group.id; pure group

abbrev pub new_group : Str → Str → Str → Namespace
new_group path name description = record {
  id = 0;
  path = path;
  name = name;
  kind = group_kind;
  owner_user_id = none;
  description = description;
  updated_at = 0;
}

unfoldable pub create : User → (name path description : Str) → M Namespace
create user name path description = do
  lift (validate_path_segment path)
  name' ← lift (validate_name name)
  check (not (is_reserved_root path)) (invalid (text "path is reserved"))
  transaction (do
    ns ← map_err path_taken_error (execute (insert_namespace (new_group path name' description)))
    execute (insert_group_member ns.id user.id (pos 50))
    pure ns)

-- Option::map and transpose
abbrev pub optional {ℓ} : {A : Type ℓ} → (A → Result A) → Option A → Result (Option A)
optional f none = ok none
optional f (some a) = elim (f a) [ ok b ↦ ok (some b) | err e ↦ err e ]

abbrev pub check_path : Option Str → M (Unit {0})
check_path none = pure tt
check_path (some path) = do
  lift (validate_path_segment path)
  check (not (is_reserved_root path)) (invalid (text "path is reserved"))

unfoldable pub update : User → Str → (name path description : Option Str) → M Namespace
update user id name path description = do
  group ← locate_group id
  require_owner user group.id
  name' ← lift (optional validate_name name)
  check_path path
  t ← now
  map_err path_taken_error (execute (update_group group.id name' path description t))

abbrev pub owner_count : ℕ → Db → ℕ
owner_count id d = length (retain (is_owner id) d.group_members)

-- The handler's own check before it takes the level 50 from a member.
abbrev pub keep_owner : ℕ → Bool → M (Unit {0})
keep_owner id false = pure tt
keep_owner id true = do
  owners ← query (owner_count id)
  check (not (leb owners 1)) (conflict owner_text)

unfoldable pub add_member : User → ℕ → (user_id : ℕ) (access_level : ℤ) → M (Unit {0})
add_member user id user_id access_level = do
  locate_group_id id >>= (λ _. pure tt)
  require_owner user id
  check (is_some (level_from_i32 access_level))
      (invalid (text "access_level must be 10/20/30/40/50"))
  existing ← group_level id user_id
  keep_owner id (eq_ℤ existing (pos 50) && not (eq_ℤ access_level (pos 50)))
  map_err member_error (execute (upsert_group_member id user_id access_level))

abbrev pub require_self_or_owner : User → ℕ → ℕ → M (Unit {0})
require_self_or_owner user id member_id =
    if member_id == user.id then pure tt else require_owner user id

unfoldable pub remove_member : User → ℕ → ℕ → M (Unit {0})
remove_member user id member_id = do
  locate_group_id id >>= (λ _. pure tt)
  require_self_or_owner user id member_id
  target_level ← group_level id member_id
  keep_owner id (eq_ℤ target_level (pos 50))
  affected ← map_err map_group_owner_invariant (execute (delete_group_member id member_id))
  check (not (affected == 0)) not_found

unfoldable pub delete : User → ℕ → M (Unit {0})
delete user id = do
  require_owner user id
  projects ← query (λ d. length (retain (λ p. p.namespace_id == id) d.projects))
  check (projects == 0) (conflict (text "group still contains projects"))
  affected ← execute (delete_group id)
  check (not (affected == 0)) not_found

-- The groups of the caller, by path; an admin sees all. `sorted` is SQLite's ORDER BY.
unfoldable pub list : (List Namespace → List Namespace) → User → M (List Namespace)
list sorted user = query (λ d. sorted (
    retain
      (λ n.
        str_eq n.kind group_kind && (user.is_admin || any (is_member n.id user.id) d.group_members))
      d.namespaces))

-- JOIN users ON users.id = group_members.user_id
abbrev joined : List User → List GroupMember → List (User × ℤ)
joined users [] = []
joined users (m ∷ ms) = elim (find (λ u. u.id == m.user_id) users) [
  | none ↦ joined users ms
  | some u ↦ (u, m.access_level) ∷ joined users ms
]

-- The members of a group, with their levels. `sorted` is the ORDER BY.
unfoldable pub list_members : (List (User × ℤ) → List (User × ℤ)) → User → ℕ → M (List (User × ℤ))
list_members sorted user id = do
  locate_group_id id >>= (λ _. pure tt)
  require_member user id
  query (λ d. sorted (joined d.users (retain (λ m. m.namespace_id == id) d.group_members)))

-- ===== src/Projects.antt =====
-- crates/rgit-http/src/handlers/api/projects.rs: who may write to a namespace, creation, archiving and
-- transfer. The caller is the user that RequireUser hands over; of the JSON answer only the row is kept.
pub mod Archived
pub mod Transferred
pub mod Create
pub mod Created
pub mod Listing
pub mod Listed
pub mod Delete
pub mod Update
pub mod Fork
use rgit.Common.{
  ℕ, Str, text, Bool, true, false, not, ◌&&◌, ◌||◌, ◌==◌, Option, none, some, List, [], ◌∷◌, ℤ, pos,
  leb_ℤ, any, find, retain, str_eq, is_some, if◌then◌else◌, trim, is_empty, leb, byte_len,
}
use rgit.Error.{
  Error, db, unique_violation, row_not_found, not_found, forbidden, conflict, invalid, busy, git,
}
use rgit.Result.{Result, ok, err}
use rgit.Perm.{AccessLevel, RepoAction, read, level_le, maintainer, owner, visibility_from_i32}
use rgit.PathSegment.{validate_path_segment}
use rgit.Models.{User, Namespace, Project}
use rgit.Store.{
  Db, World, M, query, execute, pure, fail, lift, check, require, map_err, ◌>>=◌, ◌>>◌,
}
use rgit.Auth.Authorize.{is_id, effective_access_level, authorize_repo}
use rgit.Auth.Identity.{Identity}
use rgit.Auth.Token.{now}
use rgit.Tables.Groups.{group_kind, user_kind}
use rgit.Tables.Projects.{insert_project, update_project, move_project, delete_project}
use rgit.Groups.{level_in, validate_name}
use rgit.Locate.{locate}
use rgit.Storage.{disk_hash}
use rgit.Autocreate.{
  Naming, hash_of, reserve_disk_id, init_bare, or_cleanup, cleanup_new_repo, new_project,
}

-- `match ns.kind`, for a caller who is no admin
abbrev pub may_write : User → Namespace → M Bool
may_write user ns =
    if str_eq ns.kind user_kind
    then pure (is_id ns.owner_user_id user.id)
    else if str_eq ns.kind group_kind
    then query (λ d. leb_ℤ (pos 40) (level_in ns.id user.id d))
    else pure false

abbrev pub if_allowed : Namespace → Bool → M Namespace
if_allowed ns allowed = if allowed then pure ns else fail forbidden

abbrev pub writable_by : User → Namespace → M Namespace
writable_by user ns = if user.is_admin then pure ns else may_write user ns >>= if_allowed ns

abbrev pub has_namespace_id : ℕ → Namespace → Bool
has_namespace_id id n = n.id == id

unfoldable pub writable_namespace : User → ℕ → M Namespace
writable_namespace user namespace_id =
    query (λ d. find (has_namespace_id namespace_id) d.namespaces)
    >>= (λ row. require row not_found >>= writable_by user)

-- `render` reads the namespace of the row.
abbrev pub render : Project → M Project
render project =
    query (λ d. find (has_namespace_id project.namespace_id) d.namespaces)
    >>= (λ row. require row (db row_not_found) >>= (λ _. pure project))

abbrev pub reaches : AccessLevel → Option AccessLevel → M (Unit {0})
reaches needed none = fail forbidden
reaches needed (some level) = check (level_le needed level) forbidden

unfoldable pub require_admin_level : User → Project → AccessLevel → M (Unit {0})
require_admin_level user project needed =
    if user.is_admin then pure tt else effective_access_level user.id project >>= reaches needed

unfoldable pub get : Identity → Str → M Project
get identity id =
    locate id >>= (λ project. authorize_repo identity.user project read >> render project)

abbrev pub archive_flag : Str → Option Bool
archive_flag flag =
    if str_eq flag (text "archive")
    then some true
    else if str_eq flag (text "unarchive")
    then some false
    else none

abbrev pub archive_row : Bool → ℕ → Project → Project
archive_row archived t p = record p { archived = archived; updated_at = t }

abbrev pub write_archived : User → Bool → Project → M Project
write_archived user archived project =
    require_admin_level user project maintainer
    >> now
    >>= (λ t. execute (update_project project.id (archive_row archived t)) >>= render)

unfoldable pub set_archived : User → Str → Str → M Project
set_archived user id flag =
    require (archive_flag flag) not_found
    >>= (λ archived. locate id >>= write_archived user archived)

abbrev pub target_taken : Error → Error
target_taken (db unique_violation) = conflict (text "path already taken in target namespace")
target_taken e = e

abbrev pub move_to : User → ℕ → Project → M Project
move_to user namespace_id project =
    require_admin_level user project owner >> writable_namespace user namespace_id >>= (λ _.
      now
      >>= (λ t. map_err target_taken (execute (move_project project.id namespace_id t)) >>= render))

unfoldable pub transfer : User → Str → ℕ → M Project
transfer user id namespace_id = locate id >>= move_to user namespace_id

-- ===== src/Lfs.antt =====
-- crates/rgit-http/src/handlers/lfs.rs. A handler's answer is `done` with its data or `refused` with
-- the status and the message of `lfs_error`; a file-system call that fails counts as a failed call.
pub mod Access
pub mod Objects
pub mod Upload
use rgit.Common.{
  ℕ, suc, ◌+◌, Str, text, ◌++◌, Bool, true, false, not, ◌&&◌, ◌||◌, ◌==◌, ltb, Option, none, some,
  List, [], ◌∷◌, ℤ, pos, negsuc, eq_ℤ, any, find, retain, length, str_eq, strip_suffix, is_some,
  if◌then◌else◌,
}
use rgit.Error.{Error, unauthorized}
use rgit.Result.{Result, ok, err}
use rgit.Perm.{RepoAction, read, write}
use rgit.Models.{Namespace, Project, LfsObject, ProjectLfsObject}
use rgit.Store.{Db, World, M, query, execute, transaction, pure}
use rgit.Auth.Authorize.{authorize_repo, is_write}
use rgit.Auth.Token.{Scope, read_repository, write_repository}
use rgit.Auth.Identity.{Identity, allows, lfs_project}
use rgit.Outcome.{Outcome, done, refused, L, ◌>>=◌, ◌>>◌, match_on, refuse, give}
use rgit.Storage.{is_valid_lfs_oid}
use rgit.Tables.Groups.{next_id}
use rgit.Locate.{find_project}

pub record LfsConfig : Type 0 where
  pub enabled : Bool
  pub max_file_size : ℕ
  pub external_url : Str

-- The token's project and direction, where the caller has an LFS token.
abbrev pub outside_token : Option (ℕ × Bool) → Project → RepoAction → Bool
outside_token none project action = false
outside_token (some (project_id, can_write)) project action =
    not (project_id == project.id) || (is_write action && not can_write)

abbrev pub scope_of : RepoAction → Scope
scope_of write = write_repository
scope_of _ = read_repository

abbrev authorized : Project → Result (Unit {0}) → L Project
authorized project (ok _) = give project
authorized project (err unauthorized) = refuse 401 (text "authentication required")
authorized project (err _) = refuse 403 (text "access denied")

abbrev pub check_project : Identity → RepoAction → Project → L Project
check_project identity action project =
    if not project.lfs_enabled
    then refuse 404 (text "LFS disabled for project")
    else if outside_token (lfs_project identity) project action
    then refuse 403 (text "LFS token scope insufficient")
    else if is_some identity.user && not (allows identity (scope_of action))
    then refuse 403 (text "token scope insufficient")
    else match_on (authorize_repo identity.user project action) (authorized project)

abbrev found_project : Identity → RepoAction → Result (Namespace × Project) → L Project
found_project identity action (ok (_, project)) = check_project identity action project
found_project identity action (err _) = refuse 404 (text "not found")

abbrev pub resolve_path : Identity → Str → RepoAction → Option Str → L Project
resolve_path identity ns action none = refuse 404 (text "not found")
resolve_path identity ns action (some proj_path) =
    match_on (find_project ns proj_path) (found_project identity action)

unfoldable pub resolve_lfs : LfsConfig → Identity → Str → Str → RepoAction → L Project
resolve_lfs config identity ns proj_segment action =
    if not config.enabled
    then refuse 404 (text "LFS disabled")
    else resolve_path identity ns action (strip_suffix (text ".git") proj_segment)

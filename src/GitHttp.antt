-- ===== src/GitHttp.antt =====
-- crates/rgit-http/src/handlers/git_http.rs: the smart HTTP routes up to the start of the Git process.
-- An answer is the project that the process is started on, or a status and a text.
pub mod Resolved
pub mod Opaque
pub mod Push
use rgit.Common.{
  ℕ, Str, text, ◌++◌, Bool, true, false, not, ◌&&◌, Option, none, some, is_some, str_eq,
  strip_suffix, and_then, if◌then◌else◌,
}
use rgit.Error.{Error, not_found, unauthorized, forbidden, busy, conflict, invalid, git}
use rgit.Result.{Result, ok, err}
use rgit.Perm.{RepoAction, read, write}
use rgit.Models.{User, Namespace, Project}
use rgit.Store.{World, M, ◌>>◌}
use rgit.State.{begin_git_operation}
use rgit.Auth.Authorize.{authorize_repo, is_write}
use rgit.Auth.Token.{Scope, read_repository, write_repository}
use rgit.Auth.Identity.{Identity, allows, lfs_project}
use rgit.Outcome.{Outcome, L, ◌>>=◌, match_on, refuse, give}
use rgit.Locate.{find_project}
use rgit.Protocol.{Service, upload_pack, receive_pack, upload_archive, from_wire, name}
use rgit.Autocreate.{Naming, ensure_project_for_push, outside}

abbrev pub repo_action : Service → RepoAction
repo_action receive_pack = write
repo_action upload_pack = read
repo_action upload_archive = read

abbrev pub repo_scope : Service → Scope
repo_scope receive_pack = write_repository
repo_scope upload_pack = read_repository
repo_scope upload_archive = read_repository

-- Status 401 comes with `WWW-Authenticate: Basic`.
abbrev pub basic_challenge : L Project
basic_challenge = refuse 401 (text "authentication required\n")

abbrev pub missing : L Project
missing = refuse 404 (text "not found\n")

abbrev pub server_busy : L Project
server_busy = refuse 503 (text "server busy\n")

abbrev pub server_error : L Project
server_error = refuse 500 (text "")

unfoldable pub auto_create_error : Error → L Project
auto_create_error forbidden = refuse 403 (text "access denied\n")
auto_create_error (invalid message) = refuse 422 (message ++ text "\n")
auto_create_error (conflict message) = refuse 409 (message ++ text "\n")
auto_create_error busy = server_busy
auto_create_error _ = server_error

-- `match authorize_repo(…)`
abbrev pub by_policy : RepoAction → Project → Result (Unit {0}) → L Project
by_policy action project (ok _) = give project
by_policy action project (err unauthorized) = basic_challenge
by_policy action project (err forbidden) =
    if is_write action && project.archived
    then refuse 403 (text "project is archived (read-only)\n")
    else missing
by_policy action project (err _) = server_error

abbrev pub authorize : Identity → RepoAction → Project → L Project
authorize identity action project =
    match_on (authorize_repo identity.user project action) (by_policy action project)

abbrev pub made : Result Project → L Project
made (ok project) = give project
made (err error) = auto_create_error error

abbrev pub slot_for : Project → (Project → L Project) → Result (Unit {0}) → L Project
slot_for project run (ok _) = run project
slot_for project run (err _) = server_busy

abbrev pub with_slot : (Project → L Project) → Project → L Project
with_slot run project = match_on begin_git_operation (slot_for project run)

abbrev pub started : Project → Result (Unit {0}) → L Project
started project (ok _) = give project
started project (err _) = server_error

-- Starting a child process, which may fail.
abbrev pub spawn : Project → L Project
spawn project = match_on (outside (git (text "spawn"))) (started project)

abbrev pub advertised : Option Service → Option Service
advertised (some upload_pack) = some upload_pack
advertised (some receive_pack) = some receive_pack
advertised _ = none

-- `git config` for shallow pushes, and for the deletion of the current branch
abbrev pub prepare : Service → Project → L Project
prepare receive_pack project =
    match_on (outside (git (text "config")) >> outside (git (text "config"))) (started project)
    >>= spawn
prepare upload_pack project = spawn project
prepare upload_archive project = spawn project

abbrev pub has_type : Option Str → Str → Bool
has_type none expected = false
has_type (some given) expected = str_eq given expected

module _ (naming : Naming) where
  abbrev pub in_slot : User → Str → Str → Result (Unit {0}) → L Project
  in_slot user ns path (ok _) = match_on (ensure_project_for_push naming user ns path) made
  in_slot user ns path (err _) = server_busy

  -- The missing repository of a push.
  abbrev pub auto_create : Option User → Str → Str → L Project
  auto_create none ns path = basic_challenge
  auto_create (some user) ns path = match_on begin_git_operation (in_slot user ns path)

  abbrev pub if_missing : Option User → Str → Str → Service → L Project
  if_missing user ns path receive_pack = auto_create user ns path
  if_missing user ns path upload_pack = missing
  if_missing user ns path upload_archive = missing

  abbrev pub looked_up :
      Option User → Str → Str → Service → Result (Namespace × Project) → L Project
  looked_up user ns path service (ok found) = give found.1
  looked_up user ns path service (err not_found) = if_missing user ns path service
  looked_up user ns path service (err _) = server_error

  abbrev pub resolve_path : Identity → Str → Service → Option Str → L Project
  resolve_path identity ns service none = missing
  resolve_path identity ns service (some path) =
      if is_some (lfs_project identity)
      then refuse 403 (text "LFS credentials are not valid for Git\n")
      else if is_some identity.user && not (allows identity (repo_scope service))
      then refuse 403 (text "token scope insufficient\n")
      else (match_on (find_project ns path) (looked_up identity.user ns path service)
          >>= authorize identity (repo_action service))

  unfoldable pub resolve_and_authorize : Identity → Str → Str → Service → L Project
  resolve_and_authorize identity ns segment service =
      resolve_path identity ns service (strip_suffix (text ".git") segment)

  abbrev pub advertise : Identity → Str → Str → Option Service → L Project
  advertise identity ns proj none = refuse 403 (text "smart HTTP only\n")
  advertise identity ns proj (some service) =
      resolve_and_authorize identity ns proj service >>= with_slot spawn

  unfoldable pub info_refs : Identity → Str → Str → Option Str → L Project
  info_refs identity ns proj service =
      advertise identity ns proj (advertised (and_then service from_wire))

  unfoldable pub service_rpc : Identity → Str → Str → Service → Option Str → L Project
  service_rpc identity ns proj service content_type =
      if not (has_type content_type (text "application/x-" ++ (name service ++ text "-request")))
      then refuse 415 (text "bad content-type\n")
      else resolve_and_authorize identity ns proj service >>= with_slot (prepare service)

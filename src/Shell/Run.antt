-- ===== src/Shell/Run.antt =====
-- `run`, `find_project` and `update_after_push` of crates/rgit-ssh/src/shell.rs: what one forced command does. The
-- configuration, the exit status of git, and the repository that a push leaves are arguments.
pub mod Steps
pub mod Harmless
pub mod Rights
pub mod Served
pub mod Authorized
pub mod Granted
pub mod Presented
use rgit.Common.{
  ℕ, Str, text, ◌++◌, Bool, true, false, not, ◌&&◌, ◌||◌, ◌==◌, Option, none, some, ℤ, pos, eq_ℤ,
  List, ◌∷◌, find, any, map, and_then, if◌then◌else◌,
}
use rgit.Error.{Error, db, unavailable, forbidden, invalid, conflict, not_found, git as git_error}
use rgit.Result.{Result, ok, err}
use rgit.Perm.{RepoAction}
use rgit.Models.{User, Project, SshKey, Namespace, is_active}
use rgit.Store.{Db, World, M, query, execute}
use rgit.Auth.Authorize.{authorize_repo, is_write}
use rgit.Auth.Token.{now, issue_lfs_token}
use rgit.Protocol.{Service, upload_pack, receive_pack, upload_archive}
use rgit.Tables.Projects.{set_default_branch}
use rgit.Locate.{namespace_at, project_in}
use rgit.Autocreate.{Naming, ensure_project_for_push, outside}
use rgit.Lfs.Objects.{trim_end_matches}
use rgit.Repo.Head.{Git, refresh_head_branch_after_push}
use rgit.Shell.{
  ShellError, invalid_command, repository_not_found, access_denied, archived, internal, ShellAction,
  git, lfs, ShellCommand, repo_action, parse_command,
}

pub data Answer {ℓ} (A : Type ℓ) : Type ℓ where
  completed : A → Answer A
  failed : ShellError → Answer A

abbrev pub S {ℓ} : Type ℓ → Type ℓ
S A = World → Answer A × World

module _ {ℓ κ} {A : Type ℓ} {B : Type κ} where
  abbrev pub proceed : Answer A × World → (A → S B) → Answer B × World
  proceed (completed a, w) f = f a w
  proceed (failed e, w) f = (failed e, w)

  infixl 5 ◌>>=◌
  abbrev pub ◌>>=◌ : S A → (A → S B) → S B
  ◌>>=◌ m f w = proceed (m w) f

module _ {ℓ} {A : Type ℓ} where
  abbrev pub complete : A → S A
  complete a w = (completed a, w)

  abbrev pub stop : ShellError → S A
  stop e w = (failed e, w)

  abbrev pub mapped : (Error → ShellError) → Result A × World → Answer A × World
  mapped f (ok a, w) = (completed a, w)
  mapped f (err e, w) = (failed (f e), w)

  -- `m.map_err(f)?`
  abbrev pub call_or : (Error → ShellError) → M A → S A
  call_or f m w = mapped f (m w)

  abbrev pub or_stop : Option A → ShellError → S A
  or_stop none e = stop e
  or_stop (some a) e = complete a

infixl 5 ◌>>◌
abbrev pub ◌>>◌ {ℓ} : {B : Type ℓ} → S (Unit {0}) → S B → S B
m >> n = m >>= λ _. n

abbrev pub as_internal : Error → ShellError
as_internal e = internal

-- What is printed for the LFS client.
pub record LfsGrant : Type 0 where
  pub authorization : Str
  pub href : Str
  pub expires_in : ℕ

-- The service that ran, with its exit code, or the grant that was printed, with exit code 0.
pub data Ran : Type 0 where
  git_service : Service → Project → (code : ℤ) → Ran
  lfs_grant : (can_write : Bool) → Project → LfsGrant → Ran

pub record Host : Type 1 where
  pub naming : Naming
  pub lfs_enabled : Bool
  pub external_url : Str
  pub encode_base64 : Str → Str
  -- the exit code of the service; none if a signal ended it
  pub exit_code : Service → Project → Option ℤ
  pub git : Git
  pub pushed : Project → git.Repository

abbrev pub lfs_token_ttl_seconds : ℕ
lfs_token_ttl_seconds = 3600

-- SELECT u.* FROM users u JOIN ssh_keys k ON k.user_id = u.id WHERE k.id = ? AND u.state = 'active'
abbrev pub owns_key : Db → ℕ → User → Bool
owns_key d key_id u = is_active u && any (λ k. k.id == key_id && k.user_id == u.id) d.ssh_keys

abbrev pub key_user : ℕ → Db → Option User
key_user key_id d = find (owns_key d key_id) d.users

abbrev pub in_namespace : Str → Option Namespace → S (Option Project)
in_namespace path none = complete none
in_namespace path (some ns) = call_or as_internal (query (project_in ns.id path))

unfoldable pub find_project : Str → Str → S (Option Project)
find_project namespace_path project_path =
    call_or as_internal (query (namespace_at namespace_path)) >>= in_namespace project_path

-- What a failed auto-creation is reported as.
abbrev pub creation_error : Error → ShellError
creation_error forbidden = access_denied
creation_error (invalid _) = invalid_command
creation_error (conflict _) = invalid_command
creation_error not_found = repository_not_found
creation_error _ = internal

abbrev pub refused_as : RepoAction → Project → Error → ShellError
refused_as action project e =
    if is_write action && project.archived then archived else access_denied

-- UPDATE ssh_keys SET last_used_at = datetime('now') WHERE id = ?
abbrev pub touch_key : ℕ → ℕ → Db → Result (Unit {0} × Db)
touch_key t key_id d = ok (
  tt,
  record d {
    ssh_keys =
        map (λ k. if k.id == key_id then record k { last_used_at = some t } else k) d.ssh_keys;
  },
)

abbrev pub mark_key_used : ℕ → S (Unit {0})
mark_key_used key_id =
    call_or as_internal now >>= (λ t. call_or as_internal (execute (touch_key t key_id)))

-- `status.success()`, and `status.code().unwrap_or(1)`
abbrev pub is_success : Option ℤ → Bool
is_success none = false
is_success (some code) = eq_ℤ code (pos 0)

abbrev pub code_or_one : Option ℤ → ℤ
code_or_one none = pos 1
code_or_one (some code) = code

abbrev pub is_receive : Service → Bool
is_receive receive_pack = true
is_receive upload_pack = false
is_receive upload_archive = false

module _ (host : Host) where
  abbrev pub created : User → ShellCommand → ShellAction → S Project
  created user c (git receive_pack) =
      call_or creation_error (ensure_project_for_push host.naming user c.namespace c.project)
  created user c _ = stop repository_not_found

  abbrev pub found_or_created : User → ShellCommand → Option Project → S Project
  found_or_created user c (some project) = complete project
  found_or_created user c none = created user c c.action

  abbrev pub authorize : User → RepoAction → Project → S (Unit {0})
  authorize user action project =
      call_or (refused_as action project) (authorize_repo (some user) project action)

  unfoldable pub update_after_push : Project → S (Unit {0})
  update_after_push project =
      call_or as_internal
        (λ w. ((refresh_head_branch_after_push host.git (host.pushed project)).0, w))
      >>= (λ head.
          call_or as_internal now
          >>= (λ t. call_or as_internal (execute (set_default_branch t project.id head))))

  abbrev pub configure : Service → S (Unit {0})
  configure service =
      if is_receive service
      then call_or as_internal (outside (git_error (text "config")))
        >> call_or as_internal (outside (git_error (text "config")))
      else complete tt

  abbrev pub after_service : Service → Project → Option ℤ → S (Unit {0})
  after_service service project code =
      if is_success code && is_receive service then update_after_push project else complete tt

  abbrev pub start_service : Service → Project → S (Unit {0})
  start_service service project w =
      (completed tt, record w { started = (service, project) ∷ w.started })

  -- From the start of the service on.
  abbrev pub wait_service : Service → Project → S Ran
  wait_service service project =
      call_or as_internal (outside (git_error (text "service")))
      >> (after_service service project (host.exit_code service project)
          >> complete (git_service service project (code_or_one (host.exit_code service project))))

  abbrev pub run_service : Service → Project → S Ran
  run_service service project =
      configure service >> (start_service service project >> wait_service service project)

  abbrev pub grant_of : User → ShellCommand → Project → Str → LfsGrant
  grant_of user c project token = record {
    authorization = text "Basic " ++ host.encode_base64 (user.username ++ (text ":" ++ token));
    href =
        trim_end_matches (text "/") host.external_url
        ++ (text "/" ++ (c.namespace ++ (text "/" ++ (project.path ++ text ".git/info/lfs"))));
    expires_in = lfs_token_ttl_seconds;
  }

  abbrev pub issue_grant : User → ShellCommand → Bool → Project → S Ran
  issue_grant user c can_write project =
      if not host.lfs_enabled || not project.lfs_enabled
      then stop repository_not_found
      else call_or as_internal
          (issue_lfs_token host.naming.digest user.id project.id can_write lfs_token_ttl_seconds)
        >>= (λ token. complete (lfs_grant can_write project (grant_of user c project token)))

  abbrev pub act : User → ShellCommand → Project → ShellAction → S Ran
  act user c project (git service) = run_service service project
  act user c project (lfs can_write) = issue_grant user c can_write project

  abbrev pub run_command : ℕ → ShellCommand → User → S Ran
  run_command key_id c user =
      (find_project c.namespace c.project >>= found_or_created user c) >>= (λ project.
        authorize user (repo_action c.action) project
        >> (mark_key_used key_id >> act user c project c.action))

  abbrev pub with_command : ℕ → ShellCommand → S Ran
  with_command key_id c =
      call_or as_internal (query (key_user key_id))
      >>= (λ found. or_stop found access_denied >>= run_command key_id c)

  abbrev pub opened : ℕ → Str → S Ran
  opened key_id original = or_stop (parse_command original) invalid_command >>= with_command key_id

  -- The configuration is loaded and the database opened first.
  unfoldable pub run : ℕ → Str → S Ran
  run key_id original = call_or as_internal (outside (db unavailable)) >> opened key_id original

-- ===== src/Projects/Update.antt =====
-- `update` of crates/rgit-http/src/handlers/api/projects.rs. The Git of each repository is an argument.
pub mod Guarded
use rgit.Common.{ℕ, Str, text, ◌++◌, Bool, true, Option, none, some, ℤ, is_some, if◌then◌else◌}
use rgit.Error.{Error, invalid, git}
use rgit.Result.{Result, ok, err}
use rgit.Perm.{maintainer, visibility_from_i32}
use rgit.Models.{User, Project}
use rgit.Store.{M, execute, pure, lift, check, ◌>>=◌, ◌>>◌}
use rgit.Auth.Token.{now}
use rgit.Tables.Groups.{coalesce}
use rgit.Tables.Projects.{update_project}
use rgit.Groups.{validate_name}
use rgit.Locate.{locate}
use rgit.State.{begin_git_operation}
use rgit.Autocreate.{outside}
use rgit.GitRead
use rgit.Projects.{require_admin_level, render}

pub record UpdateProject : Type 0 where
  pub name : Option Str
  pub description : Option Str
  pub visibility : Option ℤ
  pub default_branch : Option Str
  pub lfs_enabled : Option Bool

abbrev pub valid_visibility : Option ℤ → Bool
valid_visibility none = true
valid_visibility (some v) = is_some (visibility_from_i32 v)

abbrev pub named : Result Str → Result (Option Str)
named (err e) = err e
named (ok s) = ok (some s)

abbrev pub valid_name : Option Str → Result (Option Str)
valid_name none = ok none
valid_name (some s) = named (validate_name s)

abbrev pub changed_row : UpdateProject → Option Str → ℕ → Project → Project
changed_row req name t p = record p {
  name = coalesce name p.name;
  description = coalesce req.description p.description;
  visibility = coalesce req.visibility p.visibility;
  default_branch = coalesce_branch req.default_branch p.default_branch;
  lfs_enabled = coalesce req.lfs_enabled p.lfs_enabled;
  updated_at = t;
}
  where
    coalesce_branch : Option Str → Option Str → Option Str
    coalesce_branch none old = old
    coalesce_branch (some b) old = some b

abbrev pub or_missing : Result Str → Result Str
or_missing (ok sha) = ok sha
or_missing (err _) = err (invalid (text "branch does not exist"))

abbrev pub write_row : UpdateProject → Option Str → Project → M Project
write_row req name project =
    now >>= (λ t. execute (update_project project.id (changed_row req name t)) >>= render)

module _ (git_of : Project → GitRead.Git) where
  -- HEAD moves to a branch that is there.
  abbrev pub move_head : Project → Option Str → M (Unit {0})
  move_head project none = pure tt
  move_head project (some branch) =
      begin_git_operation
      >> (lift (or_missing (GitRead.rev_parse (git_of project) (text "refs/heads/" ++ branch)))
          >>= (λ sha. outside (git (text "symbolic-ref"))))

  abbrev pub change : UpdateProject → Project → M Project
  change req project =
      check (valid_visibility req.visibility) (invalid (text "visibility must be 0, 10 or 20"))
      >> (lift (valid_name req.name)
          >>= (λ name. move_head project req.default_branch >> write_row req name project))

  unfoldable pub update : User → Str → UpdateProject → M Project
  update user id req =
      locate id >>= (λ project. require_admin_level user project maintainer >> change req project)

-- ===== src/Projects/Create.antt =====
-- `create` of crates/rgit-http/src/handlers/api/projects.rs: the row and the repository of a new project.
use rgit.Common.{
  ℕ, Str, text, Bool, not, ◌&&◌, Option, none, some, ℤ, any, find, retain, str_eq, is_some,
  if◌then◌else◌,
}
use rgit.Error.{Error, db, unique_violation, conflict, invalid, git}
use rgit.Result.{Result, ok, err}
use rgit.PathSegment.{validate_path_segment}
use rgit.Perm.{visibility_from_i32}
use rgit.Models.{User, Namespace, Project}
use rgit.Store.{World, M, query, execute, fail, lift, check, require, map_err, ◌>>=◌, ◌>>◌}
use rgit.Auth.Authorize.{is_id}
use rgit.Tables.Groups.{user_kind}
use rgit.Tables.Projects.{insert_project, delete_project}
use rgit.Groups.{validate_name}
use rgit.Autocreate.{Naming, hash_of, reserve_disk_id, init_bare, new_project}
use rgit.State.{begin_git_operation}
use rgit.Projects.{writable_namespace, render}

pub record CreateProject : Type 0 where
  pub name : Str
  pub path : Str
  pub namespace_id : Option ℕ
  pub visibility : ℤ
  pub description : Str

abbrev pub owns : User → Namespace → Bool
owns user n = str_eq n.kind user_kind && is_id n.owner_user_id user.id

abbrev pub own_namespace : User → M Namespace
own_namespace user =
    query (λ d. find (owns user) d.namespaces)
    >>= (λ row. require row (invalid (text "caller has no user namespace")))

abbrev pub target : User → Option ℕ → M Namespace
target user none = own_namespace user
target user (some id) = writable_namespace user id

abbrev pub remove_new_repo : Str → M (Unit {0})
remove_new_repo hash w = (ok tt, record w { repos = retain (λ r. not (str_eq r hash)) w.repos })

-- `remove_new_repo(&repo); return Err(error)`
module _ {ℓ} {A : Type ℓ} where
  abbrev pub removed : Str → Result A × World → Result A × World
  removed hash (ok a, w) = (ok a, w)
  removed hash (err e, w) = (remove_new_repo hash >> fail e) w

  abbrev pub or_removed : Str → M A → M A
  or_removed hash m w = removed hash (m w)

abbrev pub row_of : CreateProject → Str → Namespace → ℕ → Str → Project
row_of req name ns disk_id hash = record (new_project ns.id req.path disk_id hash) {
  name = name;
  description = req.description;
  visibility = req.visibility;
}

abbrev pub path_taken : Error → Error
path_taken (db unique_violation) = conflict (text "project path already taken in namespace")
path_taken e = e

abbrev pub vanished : Str → Project → M Project
vanished hash project =
    remove_new_repo hash
    >> (execute (delete_project project.id)
        >>= (λ _. fail (git (text "repository initialization disappeared"))))

-- `!repo.is_dir()`
abbrev pub finish : Str → Project → M Project
finish hash project w =
    if any (str_eq hash) w.repos then render project w else vanished hash project w

abbrev pub insert_row : CreateProject → Str → Namespace → ℕ → Str → M Project
insert_row req name ns disk_id hash =
    or_removed hash
      (map_err path_taken (execute (insert_project (row_of req name ns disk_id hash))))

abbrev pub make : CreateProject → Str → Namespace → Str → ℕ → M Project
make req name ns hash disk_id =
    begin_git_operation
    >> (or_removed hash (init_bare hash) >> (insert_row req name ns disk_id hash >>= finish hash))

module _ (naming : Naming) where
  abbrev pub make_in : CreateProject → Str → Namespace → M Project
  make_in req name ns =
      reserve_disk_id >>= (λ disk_id. make req name ns (hash_of naming disk_id) disk_id)

  abbrev pub checked : User → CreateProject → Str → M Project
  checked user req name =
      check (is_some (visibility_from_i32 req.visibility))
        (invalid (text "visibility must be 0, 10 or 20"))
      >> (target user req.namespace_id >>= make_in req name)

  unfoldable pub create : User → CreateProject → M Project
  create user req =
      lift (validate_path_segment req.path) >> (lift (validate_name req.name) >>= checked user req)

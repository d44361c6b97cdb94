-- ===== src/Projects/Fork.antt =====
-- `fork` of crates/rgit-http/src/handlers/api/projects.rs, and `fork_local` of crates/rgit-git/src/repo.rs.
pub mod Shared
use rgit.Common.{
  ℕ, suc, Str, text, ◌++◌, Bool, true, false, not, ◌&&◌, ◌==◌, Option, none, some, List, [], ◌∷◌,
  any, find, retain, map, str_eq, if◌then◌else◌,
}
use rgit.Error.{Error, db, unique_violation, row_not_found, unavailable, conflict, io, git}
use rgit.Result.{Result, ok, err}
use rgit.PathSegment.{validate_path_segment}
use rgit.Perm.{read}
use rgit.Models.{User, Namespace, Project, ProjectLfsObject}
use rgit.Store.{
  Db, World, M, query, execute, transaction, pure, fail, lift, check, require, map_err, ◌>>=◌, ◌>>◌,
}
use rgit.Auth.Authorize.{authorize_repo}
use rgit.Tables.Groups.{coalesce}
use rgit.Tables.Projects.{insert_project}
use rgit.Groups.{validate_name}
use rgit.Locate.{locate}
use rgit.State.{begin_git_operation}
use rgit.Autocreate.{Naming, hash_of, reserve_disk_id, outside, make_dir}
use rgit.Projects.{writable_namespace, render}
use rgit.Projects.Create.{owns, or_removed}

pub record ForkRequest : Type 0 where
  pub namespace_id : Option ℕ
  pub path : Option Str
  pub name : Option Str

-- `fetch_one`: the caller's own namespace has to be there.
abbrev pub target : User → Option ℕ → M Namespace
target user (some id) = writable_namespace user id
target user none =
    query (λ d. find (owns user) d.namespaces) >>= (λ row. require row (db row_not_found))

-- create_dir_all, and `git clone --bare --local`
unfoldable pub fork_local : Str → M (Unit {0})
fork_local hash w =
    if any (str_eq hash) w.repos
    then (err (conflict (text "fork target directory already exists")), w)
    else (outside io >> outside (git (text "clone")) >> make_dir hash) w

abbrev pub target_taken : Error → Error
target_taken (db unique_violation) = conflict (text "target path already taken")
target_taken e = e

abbrev pub row_of : Project → ℕ → Str → Str → ℕ → Str → Project
row_of source ns path name disk_id hash = record {
  id = 0;
  namespace_id = ns;
  path = path;
  name = name;
  description = source.description;
  visibility = source.visibility;
  default_branch = source.default_branch;
  archived = false;
  lfs_enabled = source.lfs_enabled;
  disk_id = disk_id;
  disk_hash = hash;
  forked_from_project_id = some source.id;
  updated_at = 0;
}

abbrev pub link : ℕ → ProjectLfsObject → ProjectLfsObject
link project_id o = record o { project_id = project_id }

abbrev pub has_link : List ProjectLfsObject → ProjectLfsObject → Bool
has_link rows o = any (λ r. r.project_id == o.project_id && r.lfs_object_id == o.lfs_object_id) rows

abbrev pub add_links : List ProjectLfsObject → List ProjectLfsObject → List ProjectLfsObject
add_links [] rows = rows
add_links (o ∷ os) rows =
    if has_link (add_links os rows) o then add_links os rows else o ∷ add_links os rows

abbrev pub links_of : ℕ → Db → List ProjectLfsObject
links_of source_id d = retain (λ o. o.project_id == source_id) d.project_lfs_objects

-- INSERT OR IGNORE INTO project_lfs_objects … SELECT ?1, lfs_object_id … WHERE project_id = ?2
unfoldable pub share_objects : ℕ → ℕ → Db → Result (Unit {0} × Db)
share_objects fork_id source_id d = ok (
  tt,
  record d {
    project_lfs_objects =
        add_links (map (link fork_id) (links_of source_id d)) d.project_lfs_objects;
  },
)

abbrev pub insert_fork : Project → Project → M Project
insert_fork source row =
    map_err target_taken (execute (insert_project row))
    >>= (λ forked. execute (share_objects forked.id source.id) >> pure forked)

abbrev pub copy_repo : Project → Project → M Project
copy_repo source row =
    begin_git_operation
    >> (or_removed row.disk_hash (fork_local row.disk_hash)
        >> (or_removed row.disk_hash (transaction (insert_fork source row)) >>= render))

module _ (naming : Naming) where
  abbrev pub fork_to : Project → Str → Str → Namespace → M Project
  fork_to source path name ns = reserve_disk_id >>= (λ disk_id.
      copy_repo source (row_of source ns.id path name disk_id (hash_of naming disk_id)))

  abbrev pub fork_source : User → ForkRequest → Project → M Project
  fork_source user req source =
      authorize_repo (some user) source read
      >> (target user req.namespace_id >>= (λ ns.
          lift (validate_path_segment (coalesce req.path source.path))
          >> (lift (validate_name (coalesce req.name source.name))
              >>= (λ name. fork_to source (coalesce req.path source.path) name ns))))

  unfoldable pub fork : User → Str → ForkRequest → M Project
  fork user id req = locate id >>= fork_source user req

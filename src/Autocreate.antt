-- ===== src/Autocreate.antt =====
-- crates/rgit-git/src/autocreate.rs: the project that a push to a missing repository makes. `git init`
-- is an outside call; a new repository is its disk hash among `repos`.
pub mod Steps
pub mod Starts
use rgit.Common.{
  ℕ, suc, Str, text, ◌++◌, Bool, true, false, not, ◌&&◌, ◌||◌, ◌==◌, Option, none, some, List, [],
  ◌∷◌, ℤ, pos, leb_ℤ, any, find, retain, str_eq, nocase, if◌then◌else◌,
}
use rgit.Error.{Error, db, unique_violation, not_found, forbidden, conflict, invalid, git, io}
use rgit.Result.{Result, ok, err}
use rgit.PathSegment.{validate_path_segment, is_reserved_root}
use rgit.Models.{User, Namespace, Project}
use rgit.Store.{
  Db, World, M, query, execute, transaction, pure, fail, lift, check, require, map_err, ◌>>=◌, ◌>>◌,
}
use rgit.Auth.Authorize.{is_id}
use rgit.Tables.Groups.{group_kind, insert_namespace, upsert_group_member}
use rgit.Tables.Projects.{allocate_disk_id, insert_project}
use rgit.Groups.{level_in}
use rgit.Locate.{namespace_at, project_in}
use rgit.Storage.{disk_hash}

-- SHA-256 in hex, and the printing of a number.
pub record Naming : Type 0 where
  pub digest : Str → Str
  pub decimal : ℕ → Str

abbrev pub namespace_exists : Str → Error → Error
namespace_exists path (db unique_violation) = conflict (text "namespace already exists: " ++ path)
namespace_exists path e = e

abbrev pub new_namespace : Str → ℕ → Namespace
new_namespace path user_id = record {
  id = 0;
  path = path;
  name = path;
  kind = group_kind;
  owner_user_id = some user_id;
  description = [];
  updated_at = 0;
}

-- `level.unwrap_or(0) >= Maintainer` for a group
abbrev pub check_member : User → Namespace → M Namespace
check_member user ns =
    if str_eq ns.kind group_kind
    then (do
      level ← query (level_in ns.id user.id)
      check (leb_ℤ (pos 40) level) forbidden
      pure ns)
    else fail forbidden

abbrev pub new_rows : User → Str → M Namespace
new_rows user path =
    map_err (namespace_exists path) (execute (insert_namespace (new_namespace path user.id)))
    >>= (λ ns. execute (upsert_group_member ns.id user.id (pos 50)) >>= (λ _. pure ns))

abbrev pub writable : User → Str → Option Namespace → M Namespace
writable user path none = transaction (new_rows user path)
writable user path (some ns) =
    if user.is_admin || is_id ns.owner_user_id user.id then pure ns else check_member user ns

unfoldable pub ensure_writable_namespace : User → Str → M Namespace
ensure_writable_namespace user path = query (namespace_at path) >>= writable user path

unfoldable pub reserve_disk_id : M ℕ
reserve_disk_id = transaction (execute allocate_disk_id)

abbrev pub outside : Error → M (Unit {0})
outside e w = (if w.fails w.calls then err e else ok tt, record w { calls = suc w.calls })

abbrev pub make_dir : Str → M (Unit {0})
make_dir hash w = (ok tt, record w { repos = hash ∷ w.repos })

-- repo::init_bare: create_dir_all, `git init` and `git config`
unfoldable pub init_bare : Str → M (Unit {0})
init_bare hash w =
    if any (str_eq hash) w.repos
    then (err (conflict (text "repository directory already exists")), w)
    else (outside io
          >> make_dir hash
          >> outside (git (text "init"))
          >> outside (git (text "config")))
        w

abbrev pub cleanup_new_repo : Str → M (Unit {0})
cleanup_new_repo hash w = (ok tt, record w { repos = retain (λ r. not (str_eq r hash)) w.repos })

-- `if let Err(error) = … { cleanup; return Err(error) }`
abbrev pub cleaned : Str → Result (Unit {0}) × World → Result (Unit {0}) × World
cleaned hash (ok u, w) = (ok u, w)
cleaned hash (err e, w) = (cleanup_new_repo hash >> fail e) w

abbrev pub or_cleanup : Str → M (Unit {0}) → M (Unit {0})
or_cleanup hash m w = cleaned hash (m w)

abbrev pub new_project : ℕ → Str → ℕ → Str → Project
new_project ns path disk_id hash = record {
  id = 0;
  namespace_id = ns;
  path = path;
  name = path;
  description = [];
  visibility = pos 0;
  default_branch = none;
  archived = false;
  lfs_enabled = true;
  disk_id = disk_id;
  disk_hash = hash;
  forked_from_project_id = none;
  updated_at = 0;
}

-- The row, or what another push made meanwhile; a failed insertion removes the new repository.
abbrev pub inserted : ℕ → Str → Str → Result Project × World → Result Project × World
inserted ns path hash (ok p, w) = (ok p, w)
inserted ns path hash (err (db unique_violation), w) =
    (cleanup_new_repo hash >> (query (project_in ns path) >>= (λ row. require row not_found))) w
inserted ns path hash (err e, w) = (cleanup_new_repo hash >> fail e) w

abbrev pub insert_row : ℕ → Str → ℕ → Str → M Project
insert_row ns path disk_id hash w =
    inserted ns path hash (execute (insert_project (new_project ns path disk_id hash)) w)

module _ (naming : Naming) where
  abbrev pub hash_of : ℕ → Str
  hash_of disk_id = disk_hash naming.digest naming.decimal disk_id

  abbrev pub make_project : Namespace → Str → M Project
  make_project ns path = reserve_disk_id >>= (λ disk_id.
      or_cleanup (hash_of disk_id) (init_bare (hash_of disk_id))
      >> insert_row ns.id path disk_id (hash_of disk_id))

  abbrev pub found_or_made : Namespace → Str → Option Project → M Project
  found_or_made ns path (some project) = pure project
  found_or_made ns path none = make_project ns path

  unfoldable pub ensure_project_for_push : User → Str → Str → M Project
  ensure_project_for_push user namespace_path project_path =
      lift (validate_path_segment namespace_path)
      >> lift (validate_path_segment project_path)
      >> check (not (is_reserved_root namespace_path)) (invalid (text "namespace path is reserved"))
      >> ensure_writable_namespace user namespace_path
      >>= (λ ns. query (project_in ns.id project_path) >>= found_or_made ns project_path)

-- ===== src/Tests/ProjectRows.antt =====
-- Creating, archiving and transferring a project.
use rgit.Common.{
  Option, text, ◌≡◌, refl, [], ◌∷◌, nocase, some, true, false, Memᴰ, str_eq, parse_i64, pos,
}
use rgit.Error.{forbidden}
use rgit.Result.{err}
use rgit.Perm.{maintainer, owner, write, level_from_i32}
use rgit.Models.{User, Namespace, Project}
use rgit.Store.{Db, World, query, execute}
use rgit.Auth.Authorize.{authorize_repo, effective_access_level, effective_level, sql_max}
use rgit.Tables.Projects.{update_project, move_project}
use rgit.Locate.{locate}
use rgit.Projects.{transfer, writable_namespace, set_archived, require_admin_level, archive_row}
use rgit.Projects.Archived.{Administers, set_archived-refuses_writes}
use rgit.Projects.Create.{CreateProject, create, row_of}
use rgit.Autocreate.{Naming, hash_of}
use rgit.Projects.Transferred.{Moved, MayWrite, transfer-Moved}
use rgit.Tests.Data.{team, bob, alice, demo, rows, world}

abbrev archived_demo : Project
archived_demo = archive_row true 1000 demo

abbrev after : World
after = (set_archived bob (text "5") (text "archive") world).1

set_archived-refuses_writes_example :
    ((p : Project) × Memᴰ p rows.projects × (5 ≡ p.id) × Administers rows bob p maintainer)
    × Memᴰ archived_demo after.db.projects
    × ((r : Project)
        → Memᴰ r after.db.projects
        → r.id ≡ 5
        → (caller : Option User) (u : World) → authorize_repo caller r write u ≡ (err forbidden, u))
unfolding set_archived require_admin_level effective_access_level effective_level sql_max
    level_from_i32 update_project locate query execute str_eq parse_i64
set_archived-refuses_writes_example =
    set_archived-refuses_writes bob (text "5") archived_demo world after refl

abbrev owner_alice : User
owner_alice = record alice { is_admin = false }

abbrev home : Namespace
home = record team { id = 11; path = text "alice"; kind = text "user"; owner_user_id = some 1 }

abbrev homes : Db
homes = record rows { namespaces = home ∷ team ∷ [] }

abbrev moved_demo : Project
moved_demo = record demo { namespace_id = 11; updated_at = 1000 }

abbrev in_homes : World
in_homes = record world { db = homes }

abbrev transferred : World
transferred = (transfer owner_alice (text "5") 11 in_homes).1

transfer-Moved_example :
    ((p : Project) × Memᴰ p homes.projects
      × Administers homes owner_alice p owner
      × Moved homes p.id 11 moved_demo)
    × ((n : Namespace) × Memᴰ n homes.namespaces × (n.id ≡ 11) × MayWrite homes owner_alice n)
unfolding transfer writable_namespace require_admin_level effective_access_level effective_level
    sql_max level_from_i32 move_project update_project locate query execute str_eq parse_i64 nocase
transfer-Moved_example =
    transfer-Moved owner_alice (text "5") 11 moved_demo in_homes transferred refl

abbrev naming : Naming
naming = record { digest = λ s. s; decimal = λ n. n ∷ [] }

abbrev request : CreateProject
request = record {
  name = text "New";
  path = text "new";
  namespace_id = some 11;
  visibility = pos 20;
  description = [];
}

abbrev new_row : Project
new_row = record (row_of request (text "New") home 8 (hash_of naming 8)) { id = 6 }

abbrev created : World
created = (create naming owner_alice request in_homes).1

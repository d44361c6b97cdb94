-- ===== src/Projects/Delete.antt =====
-- `delete` and `restore_soft_deleted` of crates/rgit-http/src/handlers/api/projects.rs, and `soft_delete` of
-- crates/rgit-git/src/repo.rs. A directory is known by its name without `.git`, and a trash directory by its
-- whole name.
pub mod Restored
pub mod Trash
pub mod Moves
pub mod Undone
use rgit.Common.{
  ℕ, suc, Str, text, ◌++◌, Bool, true, false, not, List, [], ◌∷◌, any, retain, str_eq,
  if◌then◌else◌,
}
use rgit.Error.{Error, db, unavailable, io}
use rgit.Result.{Result, ok, err}
use rgit.Perm.{owner}
use rgit.Models.{User, Project}
use rgit.Store.{Db, World, M, execute, ◌>>=◌, ◌>>◌}
use rgit.Autocreate.{outside}
use rgit.Tables.Projects.{delete_project}
use rgit.Locate.{locate}
use rgit.Projects.{require_admin_level}

abbrev pub exists : Str → List Str → Bool
exists path dirs = any (str_eq path) dirs

abbrev pub renamed : Str → Str → List Str → List Str
renamed from to dirs = to ∷ retain (λ d. not (str_eq d from)) dirs

-- std::fs::rename of a directory that is there
abbrev pub rename : Str → Str → World → Result (Unit {0}) × World
rename from to w =
    if w.fails w.calls
    then (err io, record w { calls = suc w.calls })
    else (ok tt, record w { calls = suc w.calls; repos = renamed from to w.repos })

-- `path.with_extension("deleted.<time>")`, for the time printed
abbrev pub trash_of : Str → Str → Str
trash_of stamp path = path ++ (text ".deleted." ++ stamp)

-- The newest of the moved directories stands first.
abbrev pub Moved : Type 0
Moved = List (Str × Str)

-- A failed rename is logged, and the next one tried.
unfoldable pub restore_soft_deleted : Moved → World → World
restore_soft_deleted [] w = w
restore_soft_deleted ((original, trash) ∷ moved) w =
    restore_soft_deleted moved (rename trash original w).1

abbrev pub moved_or_restored : Str → Str → Moved → Result (Unit {0}) × World → Result Moved × World
moved_or_restored path trash moved (ok _, w) = (ok ((path, trash) ∷ moved), w)
moved_or_restored path trash moved (err e, w) = (err e, restore_soft_deleted moved w)

abbrev pub move_one : Str → Str → Moved → M Moved
move_one stamp path moved w =
    if exists path w.repos
    then moved_or_restored path (trash_of stamp path) moved (rename path (trash_of stamp path) w)
    else (ok moved, w)

unfoldable pub move_all : Str → List Str → Moved → M Moved
move_all stamp [] moved w = (ok moved, w)
move_all stamp (path ∷ paths) moved w = (move_one stamp path moved >>= move_all stamp paths) w

-- tx.commit(): the tables of before, where it fails
abbrev pub committed : Db → Moved → World → Result (Unit {0}) × World
committed d moved w =
    if w.fails w.calls
    then (
      err (db unavailable),
      restore_soft_deleted moved (record w { calls = suc w.calls; db = d }),
    )
    else (ok tt, record w { calls = suc w.calls })

abbrev pub deleted : Db → Moved → Result (Unit {0}) × World → Result (Unit {0}) × World
deleted d moved (ok _, w) = committed d moved w
deleted d moved (err e, w) = (err e, restore_soft_deleted moved w)

abbrev pub delete_row : ℕ → Moved → M (Unit {0})
delete_row id moved w = deleted w.db moved (execute (delete_project id) w)

abbrev pub directories : Str → List Str
directories hash = hash ∷ (hash ++ text ".wiki") ∷ (hash ++ text ".design") ∷ []

unfoldable pub remove_project : Str → Project → M (Unit {0})
remove_project stamp project =
    outside (db unavailable)
    >> (move_all stamp (directories project.disk_hash) [] >>= delete_row project.id)

abbrev pub remove_if_owner : Str → User → Project → M (Unit {0})
remove_if_owner stamp user project =
    require_admin_level user project owner >> remove_project stamp project

unfoldable pub delete : Str → User → Str → M (Unit {0})
delete stamp user id = locate id >>= remove_if_owner stamp user

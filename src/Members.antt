-- ===== src/Members.antt =====
-- crates/rgit-http/src/handlers/api/members.rs. The caller is the user that RequireUser hands over.
pub mod Escalation
pub mod Written
use rgit.Common.{
  ℕ, Str, text, Bool, true, false, not, ◌&&◌, ◌||◌, ◌==◌, Option, none, some, List, [], ◌∷◌, ℤ,
  find, retain, map, and_then, if◌then◌else◌,
}
use rgit.Error.{Error, db, foreign_key_violation, not_found, forbidden, invalid}
use rgit.Perm.{AccessLevel, level_from_i32, level_le, maintainer, owner, read}
use rgit.Models.{User, Project, ProjectMember}
use rgit.Store.{Db, World, M, query, execute, pure, fail, check, require, map_err, ◌>>=◌, ◌>>◌}
use rgit.Auth.Authorize.{of_project, effective_access_level, authorize_repo}
use rgit.Tables.Projects.{upsert_project_member, delete_project_member}
use rgit.Locate.{locate}

-- `Some(level) if level >= Maintainer`
abbrev pub at_least_maintainer : Option AccessLevel → M AccessLevel
at_least_maintainer none = fail forbidden
at_least_maintainer (some level) = if level_le maintainer level then pure level else fail forbidden

unfoldable pub caller_level : User → Project → M AccessLevel
caller_level user project =
    if user.is_admin
    then pure owner
    else effective_access_level user.id project >>= at_least_maintainer

abbrev joined : Db → List ProjectMember → List (User × ℤ)
joined d [] = []
joined d (m ∷ ms) = elim (find (λ u. u.id == m.user_id) d.users) [
  | none ↦ joined d ms
  | some u ↦ (u, m.access_level) ∷ joined d ms
]

-- The project's own members. `sorted` is the ORDER BY.
unfoldable pub list : (List (User × ℤ) → List (User × ℤ)) → User → Str → M (List (User × ℤ))
list sorted user id = do
  project ← locate id
  authorize_repo (some user) project read
  query (λ d. sorted (joined d (retain (λ m. m.project_id == project.id) d.project_members)))

abbrev member_level : Option ProjectMember → Option ℤ
member_level none = none
member_level (some m) = some m.access_level

-- SELECT access_level FROM project_members WHERE project_id = ? AND user_id = ?
abbrev pub level_of : ℕ → ℕ → Db → Option ℤ
level_of project_id user_id d =
    member_level (find (of_project project_id user_id) d.project_members)

-- A stored level that is above the caller's.
abbrev pub is_above : AccessLevel → Option ℤ → Bool
is_above caller existing = elim (and_then existing level_from_i32) [
  | none ↦ false
  | some l ↦ not (level_le l caller)
]

abbrev pub unknown_user : Error → Error
unknown_user (db foreign_key_violation) = invalid (text "user does not exist")
unknown_user e = e

abbrev pub bad_level : Error
bad_level = invalid (text "access_level must be 10/20/30/40/50")

-- `add` from the point where the caller's level is known
abbrev pub set_level : User → Project → ℕ → ℤ → AccessLevel → M (Unit {0})
set_level user project user_id access_level caller = do
  requested ← require (level_from_i32 access_level) bad_level
  existing ← query (level_of project.id user_id)
  check (user.is_admin || not (not (level_le requested caller) || is_above caller existing))
      forbidden
  map_err unknown_user (execute (upsert_project_member project.id user_id access_level))

abbrev pub add_to : User → ℕ → ℤ → Project → M (Unit {0})
add_to user user_id access_level project =
    caller_level user project >>= set_level user project user_id access_level

unfoldable pub add : User → Str → ℕ → ℤ → M (Unit {0})
add user id user_id access_level = locate id >>= add_to user user_id access_level

-- Members may remove themselves; otherwise Maintainer is required.
abbrev pub check_remove : Bool → User → Project → ℕ → M (Unit {0})
check_remove true user project member_id = pure tt
check_remove false user project member_id = do
  caller ← caller_level user project
  target ← query (level_of project.id member_id)
  check (user.is_admin || not (is_above caller target)) forbidden

abbrev pub remove_from : User → ℕ → Project → M (Unit {0})
remove_from user member_id project = do
  check_remove (member_id == user.id) user project member_id
  affected ← execute (delete_project_member project.id member_id)
  check (not (affected == 0)) not_found

unfoldable pub remove : User → Str → ℕ → M (Unit {0})
remove user id member_id = locate id >>= remove_from user member_id

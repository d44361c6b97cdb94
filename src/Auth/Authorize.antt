-- ===== src/Auth/Authorize.antt =====
-- crates/rgit-core/src/auth/mod.rs: the access level of a user on a project, and the decision on
-- each repository action.
pub mod Levels
pub mod Policy
use rgit.Common.{
  ℕ, Bool, true, false, not, ◌&&◌, ◌||◌, ◌==◌, Option, none, some, List, [], ◌∷◌, ◌++◌, map, retain,
  if◌then◌else◌, ℤ, pos, max_ℤ, and_then, str_eq,
}
use rgit.Error.{Error, forbidden, unauthorized}
use rgit.Perm.{
  AccessLevel, Visibility, RepoAction, read, write, admin, private_, internal, public, level_le,
  visibility_le, level_from_i32, visibility_from_i32, required_level,
}
use rgit.Models.{User, Namespace, Project, ProjectMember, GroupMember, is_active}
use rgit.Store.{Db, M, query, pure, fail, check, ◌>>=◌, ◌>>◌}

-- SQL's `column = ?` for a column that may be NULL.
abbrev pub is_id : Option ℕ → ℕ → Bool
is_id none n = false
is_id (some m) n = m == n

-- The aggregate MAX: NULL over no row.
unfoldable pub sql_max : List ℤ → Option ℤ
sql_max [] = none
sql_max (l ∷ ls) = elim (sql_max ls) [ none ↦ some l | some m ↦ some (max_ℤ l m) ]

-- The WHERE clauses of the three parts of the UNION ALL.
abbrev pub of_project : ℕ → ℕ → ProjectMember → Bool
of_project project_id user_id m = m.project_id == project_id && m.user_id == user_id

abbrev pub of_group : ℕ → ℕ → GroupMember → Bool
of_group namespace_id user_id m = m.namespace_id == namespace_id && m.user_id == user_id

abbrev pub owned_by : ℕ → ℕ → Namespace → Bool
owned_by namespace_id user_id n = n.id == namespace_id && is_id n.owner_user_id user_id

abbrev pub member_levels : Db → ℕ → Project → List ℤ
member_levels d user_id p =
    map (λ m. m.access_level) (retain (of_project p.id user_id) d.project_members)

abbrev pub group_levels : Db → ℕ → Project → List ℤ
group_levels d user_id p =
    map (λ m. m.access_level) (retain (of_group p.namespace_id user_id) d.group_members)

abbrev pub owner_levels : Db → ℕ → Project → List ℤ
owner_levels d user_id p = map (λ n. pos 50) (retain (owned_by p.namespace_id user_id) d.namespaces)

abbrev pub all_levels : Db → ℕ → Project → List ℤ
all_levels d user_id project =
    member_levels d user_id project
    ++ (group_levels d user_id project ++ owner_levels d user_id project)

unfoldable pub effective_level : Db → ℕ → Project → Option AccessLevel
effective_level d user_id project = and_then (sql_max (all_levels d user_id project)) level_from_i32

unfoldable pub effective_access_level : ℕ → Project → M (Option AccessLevel)
effective_access_level user_id project = query (λ d. effective_level d user_id project)

abbrev pub is_write : RepoAction → Bool
is_write write = true
is_write _ = false

abbrev pub is_read : RepoAction → Bool
is_read read = true
is_read _ = false

-- `Visibility::from_i32(project.visibility).unwrap_or(Visibility::Private)`
abbrev pub visibility_of : Project → Visibility
visibility_of p = elim (visibility_from_i32 p.visibility) [ none ↦ private_ | some v ↦ v ]

-- `Some(level) if level >= needed`
abbrev pub reaches : Option AccessLevel → AccessLevel → Bool
reaches none needed = false
reaches (some level) needed = level_le needed level

abbrev pub authorize_user : User → Project → RepoAction → M (Unit {0})
authorize_user user project action =
    if not (is_active user)
    then fail forbidden
    else if user.is_admin
    then pure tt
    else if is_read action && visibility_le internal (visibility_of project)
    then pure tt
    else (do
      level ← effective_access_level user.id project
      check (reaches level (required_level action)) forbidden)

unfoldable pub authorize_repo : Option User → Project → RepoAction → M (Unit {0})
authorize_repo caller project action =
    if is_write action && project.archived then fail forbidden else elim caller [
      | none ↦
          if is_read action && visibility_le public (visibility_of project)
          then pure tt
          else fail unauthorized
      | some user ↦ authorize_user user project action
    ]

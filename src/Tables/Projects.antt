-- ===== src/Tables/Projects.antt =====
-- `projects`, `project_members` and `project_disk_id_allocations`.
use rgit.Common.{
  ℕ, Str, text, Bool, not, ◌&&◌, ◌||◌, ◌==◌, none, some, ◌∷◌, ◌++◌, any, find, retain, map, length,
  is_some, str_eq, nocase, Option, if◌then◌else◌, ℤ,
}
use rgit.Error.{db, aborted, unique_violation, foreign_key_violation, row_not_found}
use rgit.Result.{Result, ok, err}
use rgit.Perm.{level_from_i32}
use rgit.Models.{Project}
use rgit.Store.{Db}
use rgit.Auth.Authorize.{of_project, is_id}
use rgit.Tables.Groups.{next_id}

-- COALESCE(MAX(id), 0) + 1 over the disk ids in use and those ever allocated
abbrev pub next_disk_id : Db → ℕ
next_disk_id d = next_id (λ (i : ℕ). i) (map (λ p. p.disk_id) d.projects ++ d.disk_ids)

unfoldable pub allocate_disk_id : Db → Result (ℕ × Db)
allocate_disk_id d = ok (next_disk_id d, record d { disk_ids = next_disk_id d ∷ d.disk_ids })

abbrev pub same_path : ℕ → Str → Project → Bool
same_path ns path p = p.namespace_id == ns && nocase p.path path

-- INSERT INTO projects … RETURNING *: (namespace_id, path), disk_id and disk_hash are unique.
unfoldable pub insert_project : Project → Db → Result (Project × Db)
insert_project p d =
    if any
      (λ q.
        same_path p.namespace_id p.path q
        || q.disk_id == p.disk_id
        || str_eq q.disk_hash p.disk_hash)
      d.projects
    then err (db unique_violation)
    else if not (any (λ n. n.id == p.namespace_id) d.namespaces)
    then err (db foreign_key_violation)
    else (let row = record p { id = next_id (λ (q : Project). q.id) d.projects } in
        ok (row, record d { projects = row ∷ d.projects }))

-- UPDATE projects SET … WHERE id = ? RETURNING *, for a change that keeps the namespace and path
unfoldable pub update_project : ℕ → (Project → Project) → Db → Result (Project × Db)
update_project id change d = elim (find (λ p. p.id == id) d.projects) [
  | none ↦ err (db row_not_found)
  | some p ↦
      ok
        (change p, record d { projects = map (λ q. if q.id == id then change q else q) d.projects })
]

-- UPDATE projects SET namespace_id = ? WHERE id = ? RETURNING *
unfoldable pub move_project : ℕ → ℕ → ℕ → Db → Result (Project × Db)
unfolding update_project
move_project id ns now d = elim (find (λ p. p.id == id) d.projects) [
  | none ↦ err (db row_not_found)
  | some p ↦
      if any (λ q. same_path ns p.path q && not (q.id == id)) d.projects
      then err (db unique_violation)
      else if not (any (λ n. n.id == ns) d.namespaces)
      then err (db foreign_key_violation)
      else update_project id (λ q. record q { namespace_id = ns; updated_at = now }) d
]

-- UPDATE projects SET default_branch = ?, updated_at = datetime('now') WHERE id = ?
abbrev pub set_default_branch : ℕ → ℕ → Option Str → Db → Result (Unit {0} × Db)
set_default_branch t id head d = ok (
  tt,
  record d {
    projects =
        map (λ p. if p.id == id then record p { default_branch = head; updated_at = t } else p)
          d.projects;
  },
)

-- DELETE FROM projects WHERE id = ?, with ON DELETE CASCADE and SET NULL
unfoldable pub delete_project : ℕ → Db → Result (Unit {0} × Db)
delete_project id d = ok (
  tt,
  record d {
    projects =
        map
          (λ q.
            if is_id q.forked_from_project_id id
            then record q { forked_from_project_id = none }
            else q)
          (retain (λ p. not (p.id == id)) d.projects);
    project_members = retain (λ m. not (m.project_id == id)) d.project_members;
    project_lfs_objects = retain (λ l. not (l.project_id == id)) d.project_lfs_objects;
    lfs_auth_tokens = retain (λ t. not (t.project_id == id)) d.lfs_auth_tokens;
  },
)

-- INSERT INTO project_members … ON CONFLICT (project_id, user_id) DO UPDATE
unfoldable pub upsert_project_member : ℕ → ℕ → ℤ → Db → Result (Unit {0} × Db)
upsert_project_member project_id user_id level d =
    if not (is_some (level_from_i32 level))
    then err (db (aborted (text "invalid project access level")))
    else if any (of_project project_id user_id) d.project_members
    then ok (
      tt,
      record d {
        project_members =
            map
              (λ m.
                if of_project project_id user_id m then record m { access_level = level } else m)
              d.project_members;
      },
    )
    else if any (λ u. u.id == user_id) d.users && any (λ p. p.id == project_id) d.projects
    then ok (
      tt,
      record d {
        project_members =
            record { project_id = project_id; user_id = user_id; access_level = level }
            ∷ d.project_members;
      },
    )
    else err (db foreign_key_violation)

-- DELETE FROM project_members WHERE project_id = ? AND user_id = ?
unfoldable pub delete_project_member : ℕ → ℕ → Db → Result (ℕ × Db)
delete_project_member project_id user_id d = ok (
  length (retain (of_project project_id user_id) d.project_members),
  record d {
    project_members = retain (λ m. not (of_project project_id user_id m)) d.project_members;
  },
)

-- ===== src/Locate.antt =====
-- How a request names a project: crates/rgit-http/src/handlers/helpers.rs, and `locate` of
-- handlers/api/projects.rs.
pub mod Named
use rgit.Common.{
  ℕ, Str, Bool, ◌&&◌, ◌==◌, Option, none, some, ℤ, pos, eq_ℤ, find, nocase, split_once, parse_i64,
}
use rgit.Error.{Error, not_found}
use rgit.Models.{Namespace, Project}
use rgit.Store.{Db, World, M, query, fail, pure, require, ◌>>=◌}
use rgit.Tables.Projects.{same_path}

-- SELECT * FROM namespaces WHERE path = ?, and the same for a project
abbrev pub namespace_at : Str → Db → Option Namespace
namespace_at ns_path d = find (λ n. nocase n.path ns_path) d.namespaces

abbrev pub project_in : ℕ → Str → Db → Option Project
project_in ns path d = find (same_path ns path) d.projects

unfoldable pub find_project : Str → Str → M (Namespace × Project)
find_project ns_path project_path = do
  found ← query (namespace_at ns_path)
  ns ← require found not_found
  row ← query (project_in ns.id project_path)
  project ← require row not_found
  pure (ns, project)

abbrev pub has_id : ℤ → Project → Bool
has_id id p = eq_ℤ (pos p.id) id

abbrev pub locate_path : Option (Str × Str) → M Project
locate_path none = fail not_found
locate_path (some (ns, path)) = find_project ns path >>= (λ found. pure found.1)

abbrev pub locate_by : Str → Option ℤ → M Project
locate_by s none = locate_path (split_once (λ c. c == b'/') s)
locate_by s (some id) = do row ← query (λ d. find (has_id id) d.projects); require row not_found

-- A project's number, or `ns/path`.
unfoldable pub locate : Str → M Project
locate id_or_path = locate_by id_or_path (parse_i64 id_or_path)

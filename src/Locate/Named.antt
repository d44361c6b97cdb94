-- ===== src/Locate/Named.antt =====
-- What the search for a project finds.
use rgit.Common.{
  ◌≡◌, Str, ◌==◌, Option, none, some, ℤ, arith, Option-cases, inl, inr, find, find-Mem, Memᴰ,
  parse_i64, split_once,
}
use rgit.Error.{not_found}
use rgit.Result.{ok}
use rgit.Models.{Project, Namespace}
use rgit.Store.{World, query, pure, require}
use rgit.Store.Calls.{bind-eq-ok}
use rgit.Store.Reads.{Reads, bind-Reads, query-Reads, require-Reads, pure-Reads, fail-Reads}
use rgit.Tables.Projects.{same_path}
use rgit.Locate.{namespace_at, project_in, find_project, has_id, locate_path, locate_by, locate}

-- A project of the database, which the search left as it was.
abbrev pub Found : World → World → Project → Type 0
Found w v p = Memᴰ p w.db.projects × (v.db ≡ w.db)

require-Found :
    (r : Option Project) (w v : World) (p : Project)
    → require r not_found w ≡ (ok p, v)
    → (r ≡ some p) × (v ≡ w)
require-Found none w v p h = cc
require-Found (some q) w v p h = (cc, cc)

pub find_project-Found :
    (ns path : Str) (w v : World) (n : Namespace) (p : Project)
    → find_project ns path w ≡ (ok (n, p), v)
    → Found w v p
unfolding find_project query
find_project-Found ns path w v n p h = elim (Option-cases (namespace_at ns w.db)) [
  | inl e ↦ absurd (ground arith)
  | inr (m, e) ↦ elim (Option-cases (project_in m.id path w.db)) [
    | inl e' ↦ absurd (ground arith)
    | inr (q, e') ↦
        let (mem, t) = find-Mem (same_path m.id path) w.db.projects q e' in
        let same : q ≡ p = ground arith in (rw (← same) mem, ground arith)
  ]
]

path-Found :
    (s : Option (Str × Str)) (w v : World) (p : Project) → locate_path s w ≡ (ok p, v) → Found w v p
path-Found none w v p h = absurd (ground arith)
path-Found (some (ns, path)) w v p h =
    let ((n, q), x, a, b) = bind-eq-ok (find_project ns path) (λ found. pure found.1) w h in
    let (mem, same) = find_project-Found ns path w x n q a in
    let e : q ≡ p = ground arith in (rw (← e) mem, ground arith)

by-Found :
    (s : Str) (i : Option ℤ) (w v : World) (p : Project) → locate_by s i w ≡ (ok p, v) → Found w v p
unfolding query
by-Found s none w v p h = path-Found (split_once (λ c. c == b'/') s) w v p h
by-Found s (some i) w v p h = elim (Option-cases (find (has_id i) w.db.projects)) [
  | inl e ↦ absurd (ground arith)
  | inr (q, e) ↦
      let (mem, t) = find-Mem (has_id i) w.db.projects q e in
      let same : q ≡ p = ground arith in (rw (← same) mem, ground arith)
]

pub locate-Found : (s : Str) (w v : World) (p : Project) → locate s w ≡ (ok p, v) → Found w v p
unfolding locate
locate-Found s w v p h = by-Found s (parse_i64 s) w v p h

find_project-Reads : (ns path : Str) → Reads (find_project ns path)
unfolding find_project
find_project-Reads ns path = bind-Reads (query (namespace_at ns)) _ (query-Reads _) (λ found.
    bind-Reads (require found not_found) _ (require-Reads found not_found) (λ n.
      bind-Reads (query (project_in n.id path)) _ (query-Reads _) (λ row.
        bind-Reads (require row not_found) (λ p. pure (n, p)) (require-Reads row not_found)
          (λ p. pure-Reads (n, p)))))

path-Reads : (s : Option (Str × Str)) → Reads (locate_path s)
path-Reads none = fail-Reads not_found
path-Reads (some (ns, path)) =
    bind-Reads (find_project ns path) (λ found. pure found.1) (find_project-Reads ns path)
      (λ found. pure-Reads found.1)

by-Reads : (s : Str) (i : Option ℤ) → Reads (locate_by s i)
by-Reads s none = path-Reads (split_once (λ c. c == b'/') s)
by-Reads s (some i) =
    bind-Reads (query (λ d. find (has_id i) d.projects)) (λ row. require row not_found)
      (query-Reads _) (λ row. require-Reads row not_found)

pub locate-Reads : (s : Str) → Reads (locate s)
unfolding locate
locate-Reads s = by-Reads s (parse_i64 s)

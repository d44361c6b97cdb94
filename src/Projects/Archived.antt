-- ===== src/Projects/Archived.antt =====
-- What archiving and a transfer need, and what an archived project refuses.
use rgit.Common.{
  str_eq, ℕ, ◌==◌, ◌≡◌, ◌∙◌, sym, ap, subst, List, map, if◌then◌else◌, Mem-map, map-Mem, find-Mem,
  Str, text, true, Option, some, arith, Bool-cases, Option-cases, inl, inr, ◌⊎◌, find, Memᴰ,
}
use rgit.Error.{forbidden}
use rgit.Result.{ok, err}
use rgit.Perm.{AccessLevel, level_le, maintainer, write}
use rgit.Models.{User, Project}
use rgit.Store.{Db, World, query, execute, ◌>>=◌, ◌>>◌}
use rgit.Store.Calls.{bind-eq-ok, execute-eq-ok}
use rgit.Auth.Authorize.{effective_level, effective_access_level, authorize_repo}
use rgit.Auth.Token.{now}
use rgit.Tables.Projects.{update_project}
use rgit.Locate.{locate}
use rgit.Locate.Named.{locate-Found}
use rgit.Projects.{
  has_namespace_id, render, require_admin_level, archive_row, write_archived, set_archived,
}

-- An admin, or a user whose effective level suffices.
abbrev pub Administers : Db → User → Project → AccessLevel → Type 0
Administers d user p needed =
    (user.is_admin ≡ true)
    ⊎ ((v : AccessLevel) × (effective_level d user.id p ≡ some v) × (level_le needed v ≡ true))

pub require_admin_level-Administers :
    (user : User) (p : Project) (needed : AccessLevel) (w v : World)
    → require_admin_level user p needed w ≡ (ok tt, v)
    → Administers w.db user p needed × (v.db ≡ w.db)
unfolding require_admin_level effective_access_level query
require_admin_level-Administers user p needed w v h = elim (Bool-cases user.is_admin) [
  | inl t ↦ (inl t, ground arith)
  | inr f ↦ elim (Option-cases (effective_level w.db user.id p)) [
    | inl e ↦ absurd (ground arith)
    | inr (l, e) ↦ (inr (l, e, ground arith), ground arith)
  ]
]

pub render-same : (p q : Project) (w v : World) → render p w ≡ (ok q, v) → (p ≡ q) × (v.db ≡ w.db)
unfolding query
render-same p q w v h =
    elim (Option-cases (find (has_namespace_id p.namespace_id) w.db.namespaces)) [
      | inl e ↦ absurd (ground arith)
      | inr (n, e) ↦ (ground arith, ground arith)
    ]

abbrev archive_in : ℕ → ℕ → Project → Project
archive_in id t r = if r.id == id then archive_row true t r else r

update_project-archived :
    (id t : ℕ) (q : Project) (d d' : Db)
    → update_project id (archive_row true t) d ≡ ok (q, d')
    → (q.id ≡ id) × Memᴰ q d'.projects × (d'.projects ≡ map (archive_in id t) d.projects)
unfolding update_project
update_project-archived id t q d d' h = elim (Option-cases (find (λ p. p.id == id) d.projects)) [
  | inl e ↦ absurd (ground arith)
  | inr (p, e) ↦
      let (m, s) = find-Mem (λ (r : Project). r.id == id) d.projects p e in
      let table : d'.projects ≡ map (archive_in id t) d.projects = ground arith in
      let row : archive_in id t p ≡ q = ground arith in
      (
        ground arith,
        subst (Memᴰ q) (sym table) (
            subst (λ a. Memᴰ a (map (archive_in id t) d.projects)) row
              (Mem-map (archive_in id t) d.projects p m)),
        table,
      )
]

rows-archived :
    (id t : ℕ) (rows : List Project) (r : Project)
    → Memᴰ r (map (archive_in id t) rows)
    → r.id ≡ id
    → r.archived ≡ true
rows-archived id t rows r m e =
    let (s, k, same) = map-Mem (archive_in id t) rows r m in
    elim (Bool-cases (s.id == id)) [ inl h ↦ ground arith | inr h ↦ absurd (ground arith) ]

-- The answered row is the project's, it is stored, and every stored row of its id is archived.
record Archived (p q : Project) (v : World) : Type 0 where
  id : q.id ≡ p.id
  stored : Memᴰ q v.db.projects
  rows : (r : Project) → Memᴰ r v.db.projects → r.id ≡ p.id → r.archived ≡ true

write_archived-Archived :
    (user : User) (p q : Project) (w v : World)
    → write_archived user true p w ≡ (ok q, v)
    → Administers w.db user p maintainer × Archived p q v
write_archived-Archived user p q w v h =
    let row = archive_row true in
    let (t, w2, h2, k2) =
      bind-eq-ok (require_admin_level user p maintainer >> now)
        (λ t. execute (update_project p.id (row t)) >>= render) w h in
    let (_, w1, h1, k1) = bind-eq-ok (require_admin_level user p maintainer) (λ _. now) w h2 in
    let (r, w3, h3, k3) =
      bind-eq-ok (execute (update_project p.id (archive_row true t))) render w2 k2 in
    let (e3, _, _) = execute-eq-ok (update_project p.id (archive_row true t)) w2 w3 h3 in
    let (same, kept) = render-same r q w3 v k3 in
    let (id, stored, table) = update_project-archived p.id t r w2.db w3.db e3 in
    let after : v.db.projects ≡ w3.db.projects = ap (λ (d : Db). d.projects) kept in
    (
      (require_admin_level-Administers user p maintainer w w1 h1).0,
      record {
        id = ap (λ (a : Project). a.id) (sym same) ∙ id;
        stored = subst (λ a. Memᴰ a v.db.projects) same (subst (Memᴰ r) (sym after) stored);
        rows = λ a m e. rows-archived p.id t w2.db.projects a (subst (Memᴰ a) (after ∙ table) m) e;
      },
    )

pub refuses_writes :
    (caller : Option User) (q : Project) (u : World)
    → q.archived ≡ true
    → authorize_repo caller q write u ≡ (err forbidden, u)
unfolding authorize_repo
refuses_writes caller q u h = ground arith

-- Where `set_archived` archives a project, the id of the answered row is that of a project that was in the
-- database and of which the caller is at least a maintainer, unless the caller is an admin; the answered row is
-- stored; and every row of its id that is stored now refuses every caller's write.
pub set_archived-refuses_writes :
    (user : User) (id : Str) (q : Project) (w v : World)
    → set_archived user id (text "archive") w ≡ (ok q, v)
    → ((p : Project) × Memᴰ p w.db.projects × (q.id ≡ p.id) × Administers w.db user p maintainer)
      × Memᴰ q v.db.projects
      × ((r : Project)
          → Memᴰ r v.db.projects
          → r.id ≡ q.id
          → (caller : Option User) (u : World)
          → authorize_repo caller r write u ≡ (err forbidden, u))
unfolding set_archived locate str_eq
set_archived-refuses_writes user id q w v h =
    let (p, w1, h1, k1) = bind-eq-ok (locate id) (write_archived user true) w h in
    let (mem, same) = locate-Found id w w1 p h1 in
    let (a, done) = write_archived-Archived user p q w1 v k1 in
    (
      (p, mem, done.id, subst (λ d. Administers d user p maintainer) same a),
      done.stored,
      λ r m e caller u. refuses_writes caller r u (done.rows r m (e ∙ done.id)),
    )

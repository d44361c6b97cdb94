-- ===== src/Projects/Transferred.antt =====
-- What a transfer needs, and where it leaves the project.
use rgit.Common.{
  ℕ, ◌≡◌, sym, ap, ◌∙◌, Str, true, Option, none, some, pos, leb_ℤ, arith, Bool-cases, Option-cases,
  inl, inr, find, find-Mem, Memᴰ, ◌==◌, str_eq, str_eq_iff, subst,
}
use rgit.Error.{Error, not_found}
use rgit.Result.{Result, ok, err}
use rgit.Perm.{owner}
use rgit.Models.{User, Namespace, Project}
use rgit.Store.{Db, World, query, execute, require, map_err, map_error, ◌>>=◌, ◌>>◌}
use rgit.Store.Calls.{bind-eq-ok, query-eq-ok, execute-eq-ok}
use rgit.Auth.Authorize.{is_id}
use rgit.Auth.Token.{now}
use rgit.Groups.{level_in}
use rgit.Tables.Groups.{group_kind, user_kind}
use rgit.Tables.Projects.{move_project, update_project}
use rgit.Locate.{locate}
use rgit.Locate.Named.{locate-Found}
use rgit.Projects.{
  has_namespace_id, writable_by, writable_namespace, render, require_admin_level, target_taken,
  move_to, transfer,
}
use rgit.Projects.Archived.{Administers, require_admin_level-Administers, render-same}

-- The reasons for which a user may put a project into a namespace.
pub data MayWrite (d : Db) (u : User) (n : Namespace) : Type 0 where
  as_admin : u.is_admin ≡ true → MayWrite d u n
  as_owner : n.kind ≡ user_kind → is_id n.owner_user_id u.id ≡ true → MayWrite d u n
  as_maintainer :
      n.kind ≡ group_kind → leb_ℤ (pos 40) (level_in n.id u.id d) ≡ true → MayWrite d u n

by-MayWrite :
    (u : User) (m n : Namespace) (w v : World)
    → writable_by u m w ≡ (ok n, v)
    → MayWrite w.db u m × (m ≡ n) × (v.db ≡ w.db)
unfolding query
by-MayWrite u m n w v h = elim (Bool-cases u.is_admin) [
  | inl t ↦ (as_admin t, ground arith, ground arith)
  | inr f ↦ elim (Bool-cases (str_eq m.kind user_kind)) [
    | inl k ↦
        (as_owner ((str_eq_iff m.kind user_kind).0 k) (ground arith), ground arith, ground arith)
    | inr k ↦ elim (Bool-cases (str_eq m.kind group_kind)) [
      | inl g ↦ (
        as_maintainer ((str_eq_iff m.kind group_kind).0 g) (ground arith),
        ground arith,
        ground arith,
      )
      | inr g ↦ absurd (ground arith)
    ]
  ]
]

module _ {ℓ} {A : Type ℓ} where
  pub require-eq-ok :
      (r : Option A) (e : Error) (w v : World) {a : A}
      → require r e w ≡ (ok a, v)
      → (r ≡ some a) × (v ≡ w)
  require-eq-ok none e w v h = cc
  require-eq-ok (some a) e w v h = (cc, cc)

  pub map_error-eq-ok :
      (f : Error → Error) (r : Result A × World) (v : World) {a : A}
      → map_error f r ≡ (ok a, v)
      → r ≡ (ok a, v)
  map_error-eq-ok f (ok a, w) v h = h
  map_error-eq-ok f (err e, w) v h = cc

pub writable_namespace_sound :
    (u : User) (id : ℕ) (n : Namespace) (w v : World)
    → writable_namespace u id w ≡ (ok n, v)
    → Memᴰ n w.db.namespaces × (n.id ≡ id) × MayWrite w.db u n × (v.db ≡ w.db)
unfolding writable_namespace
writable_namespace_sound u id n w v h =
    let at = λ (d : Db). find (has_namespace_id id) d.namespaces in
    let (row, w1, h1, k1) =
      bind-eq-ok (query at) (λ row. require row not_found >>= writable_by u) w h in
    let (m, w2, h2, k2) = bind-eq-ok (require row not_found) (writable_by u) w1 k1 in
    let (e1, s1) = query-eq-ok at w w1 h1 in
    let (e2, s2) = require-eq-ok row not_found w1 w2 h2 in
    let (may, e3, s3) = by-MayWrite u m n w2 v k2 in
    let (mem, t) = find-Mem (has_namespace_id id) w.db.namespaces m (sym e1 ∙ e2) in
    let same : w2.db ≡ w.db = ap (λ (x : World). x.db) s2 ∙ s1.db in
    (
      subst (λ x. Memᴰ x w.db.namespaces) e3 mem,
      ground arith,
      subst (λ x. MayWrite w.db u x) e3 (subst (λ d. MayWrite d u m) same may),
      s3 ∙ same,
    )

-- The row of this id, moved.
abbrev pub Moved : Db → ℕ → ℕ → Project → Type 0
Moved d id ns q =
    (r : Project) × (t : ℕ) × Memᴰ r d.projects
    × (r.id ≡ id)
    × (q ≡ record r { namespace_id = ns; updated_at = t })

move_project-Moved :
    (id ns t : ℕ) (q : Project) (d d' : Db) → move_project id ns t d ≡ ok (q, d') → Moved d id ns q
unfolding move_project update_project
move_project-Moved id ns t q d d' h = elim (Option-cases (find (λ p. p.id == id) d.projects)) [
  | inl e ↦ absurd (ground arith)
  | inr (p, e) ↦
      let (mem, same) = find-Mem (λ p. p.id == id) d.projects p e in
      (p, t, mem, ground arith, ground arith)
]

write_move-Moved :
    (id ns t : ℕ) (q : Project) (w v : World)
    → (map_err target_taken (execute (move_project id ns t)) >>= render) w ≡ (ok q, v)
    → Moved w.db id ns q
write_move-Moved id ns t q w v h =
    let (r, w1, h1, k1) =
      bind-eq-ok (map_err target_taken (execute (move_project id ns t))) render w h in
    let (e, _, _) =
      execute-eq-ok (move_project id ns t) w w1
        (map_error-eq-ok target_taken (execute (move_project id ns t) w) w1 h1) in
    subst (Moved w.db id ns) (render-same r q w1 v k1).0 (move_project-Moved id ns t r w.db w1.db e)

-- Where `transfer` succeeds, its caller is an admin or an owner of a project of the database and may write
-- to the target, a namespace of the database; the answered row is that project's, with only its namespace
-- and update time changed, so that its directory on disk is the same.
pub transfer-Moved :
    (user : User) (id : Str) (ns : ℕ) (q : Project) (w v : World)
    → transfer user id ns w ≡ (ok q, v)
    → ((p : Project) × Memᴰ p w.db.projects × Administers w.db user p owner × Moved w.db p.id ns q)
      × ((n : Namespace) × Memᴰ n w.db.namespaces × (n.id ≡ ns) × MayWrite w.db user n)
unfolding transfer locate str_eq
transfer-Moved user id ns q w v h =
    let (p, w1, h1, k1) = bind-eq-ok (locate id) (move_to user ns) w h in
    let (mem, s1) = locate-Found id w w1 p h1 in
    let write = λ (t : ℕ). map_err target_taken (execute (move_project p.id ns t)) >>= render in
    let (n, w3, h3, k3) =
      bind-eq-ok (require_admin_level user p owner >> writable_namespace user ns)
        (λ _. now >>= write) w1 k1 in
    let (_, w2, h2, k2) =
      bind-eq-ok (require_admin_level user p owner) (λ _. writable_namespace user ns) w1 h3 in
    let (a, s2) = require_admin_level-Administers user p owner w1 w2 h2 in
    let (found, e, may, s3) = writable_namespace_sound user ns n w2 w3 k2 in
    let same : w2.db ≡ w.db = s2 ∙ s1 in
    let moved = write_move-Moved p.id ns w3.now q w3 v k3 in
    (
      (
        p,
        mem,
        subst (λ d. Administers d user p owner) s1 a,
        subst (λ d. Moved d p.id ns q) (s3 ∙ same) moved,
      ),
      (
        n,
        subst (λ (d : Db). Memᴰ n d.namespaces) same found,
        e,
        subst (λ d. MayWrite d user n) same may,
      ),
    )

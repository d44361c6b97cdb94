-- ===== src/Projects/Created.antt =====
-- What a created project is, and where it stands.
use rgit.Common.{
  ℕ, Str, ◌≡◌, refl, sym, ap, ◌∙◌, subst, Bool, true, false, Option, none, some, arith,
  Option-cases, Bool-cases, inl, inr, any, find, find-Mem, Memᴰ, str_eq, str_eq_iff, is_some, text,
}
use rgit.Error.{Error, invalid}
use rgit.Result.{Result, ok, err}
use rgit.PathSegment.{validate_path_segment}
use rgit.Perm.{visibility_from_i32}
use rgit.Models.{User, Namespace, Project}
use rgit.Store.{Db, World, query, execute, lift, check, require, map_err, ◌>>=◌, ◌>>◌}
use rgit.Store.Calls.{bind-eq-ok, query-eq-ok, execute-eq-ok}
use rgit.Tables.Groups.{user_kind}
use rgit.Tables.Projects.{insert_project}
use rgit.Groups.{validate_name}
use rgit.Autocreate.{Naming, hash_of, reserve_disk_id, init_bare}
use rgit.Projects.{has_namespace_id, render}
use rgit.Projects.Transferred.{
  MayWrite, as_owner, writable_namespace_sound, require-eq-ok, map_error-eq-ok,
}
use rgit.State.{begin_git_operation}
use rgit.Projects.Create.{
  CreateProject, owns, target, removed, or_removed, row_of, path_taken, vanished, finish,
  insert_row, make, make_in, checked, create,
}

-- A namespace of the database that the user may write to.
abbrev pub Writable : Db → User → Namespace → Type 0
Writable d u n = Memᴰ n d.namespaces × MayWrite d u n

target-Writable :
    (u : User) (id : Option ℕ) (n : Namespace) (w v : World)
    → target u id w ≡ (ok n, v)
    → Writable w.db u n
target-Writable u none n w v h =
    let at = λ (d : Db). find (owns u) d.namespaces in
    let e = invalid (text "caller has no user namespace") in
    let (row, w1, h1, k1) = bind-eq-ok (query at) (λ row. require row e) w h in
    let (e1, _) = query-eq-ok at w w1 h1 in
    let (e2, _) = require-eq-ok row e w1 v k1 in
    let (mem, t) = find-Mem (owns u) w.db.namespaces n (sym e1 ∙ e2) in
    (mem, as_owner ((str_eq_iff n.kind user_kind).0 (ground arith)) (ground arith))
target-Writable u (some id) n w v h =
    let (mem, _, may, _) = writable_namespace_sound u id n w v h in (mem, may)

insert_project-row :
    (row q : Project) (d d' : Db)
    → insert_project row d ≡ ok (q, d')
    → (q.namespace_id ≡ row.namespace_id)
      × (q.path ≡ row.path)
      × (q.visibility ≡ row.visibility)
      × (q.disk_hash ≡ row.disk_hash)
unfolding insert_project
insert_project-row row q d d' h = (ground arith, ground arith, ground arith, ground arith)

removed-eq-ok :
    {A : Type 0} (hash : Str) (r : Result A × World) (v : World) {a : A}
    → removed hash r ≡ (ok a, v)
    → r ≡ (ok a, v)
removed-eq-ok hash (ok a, w) v h = h
removed-eq-ok hash (err e, w) v h = absurd (ground arith)

vanished-fails :
    (hash : Str) (p q : Project) (w v : World) → vanished hash p w ≡ (ok q, v) → false ≡ true
unfolding execute
vanished-fails hash p q w v h = absurd (ground arith)

render-repos :
    (p q : Project) (w v : World) → render p w ≡ (ok q, v) → (p ≡ q) × (v.repos ≡ w.repos)
unfolding query
render-repos p q w v h =
    elim (Option-cases (find (has_namespace_id p.namespace_id) w.db.namespaces)) [
      | inl e ↦ absurd (ground arith)
      | inr (n, e) ↦ (ground arith, ground arith)
    ]

finish-repos :
    (hash : Str) (p q : Project) (w v : World)
    → finish hash p w ≡ (ok q, v)
    → (p ≡ q) × (any (str_eq hash) v.repos ≡ true)
finish-repos hash p q w v h = elim (Bool-cases (any (str_eq hash) w.repos)) [
  | inl t ↦ let (e, r) = render-repos p q w v (ground arith) in (e, ap (any (str_eq hash)) r ∙ t)
  | inr f ↦ absurd (ground (arith, vanished-fails hash p q w v))
]

-- What the row owes to the request.
abbrev pub Fits : CreateProject → Namespace → Project → Type 0
Fits req n q = (q.namespace_id ≡ n.id) × (q.path ≡ req.path) × (q.visibility ≡ req.visibility)

make-Fits :
    (req : CreateProject) (name : Str) (n : Namespace) (hash : Str) (disk_id : ℕ) (q : Project)
    (w v : World)
    → make req name n hash disk_id w ≡ (ok q, v)
    → Fits req n q × (any (str_eq q.disk_hash) v.repos ≡ true)
make-Fits req name n hash disk_id q w v h =
    let row = row_of req name n disk_id hash in
    let insert = map_err path_taken (execute (insert_project row)) in
    let rest = insert_row req name n disk_id hash >>= finish hash in
    let (_, w1, _, k1) =
      bind-eq-ok begin_git_operation (λ _. or_removed hash (init_bare hash) >> rest) w h in
    let (_, w2, _, k2) = bind-eq-ok (or_removed hash (init_bare hash)) (λ _. rest) w1 k1 in
    let (p, w3, h3, k3) = bind-eq-ok (insert_row req name n disk_id hash) (finish hash) w2 k2 in
    let i =
      map_error-eq-ok path_taken (execute (insert_project row) w2) w3
        (removed-eq-ok hash (insert w2) w3 h3) in
    let (e, _, _) = execute-eq-ok (insert_project row) w2 w3 i in
    let (ns, path, visibility, stored) = insert_project-row row p w2.db w3.db e in
    let (same, there) = finish-repos hash p q w3 v k3 in
    (
      subst (Fits req n) same (ns, path, visibility),
      subst (λ (x : Project). any (str_eq x.disk_hash) v.repos ≡ true) same
          (subst (λ s. any (str_eq s) v.repos ≡ true) (sym stored) there),
    )

lift-eq-ok :
    {A : Type 0} (r : Result A) (w v : World) {a : A} → lift r w ≡ (ok a, v) → (r ≡ ok a) × (v ≡ w)
lift-eq-ok r w v h = (ap (λ x. x.0) h, sym (ap (λ x. x.1) h))

pub check-eq-ok :
    (b : Bool) (e : Error) (w v : World) {u : Unit {0}}
    → check b e w ≡ (ok u, v)
    → (b ≡ true) × (v ≡ w)
check-eq-ok true e w v h = (refl, cc)
check-eq-ok false e w v h = cc

-- Where `create` succeeds, the path is a valid segment, the visibility is one of the three, the row has that path
-- and visibility and lies in a namespace of the database that the caller may write to, and its repository
-- is there on disk.
pub create-Fits :
    (naming : Naming) (user : User) (req : CreateProject) (q : Project) (w v : World)
    → create naming user req w ≡ (ok q, v)
    → (validate_path_segment req.path ≡ ok tt)
      × (is_some (visibility_from_i32 req.visibility) ≡ true)
      × ((n : Namespace) × Writable w.db user n × Fits req n q)
      × (any (str_eq q.disk_hash) v.repos ≡ true)
unfolding create
create-Fits naming user req q w v h =
    let named = lift (validate_name req.name) >>= checked naming user req in
    let (_, w1, h1, k1) = bind-eq-ok (lift (validate_path_segment req.path)) (λ _. named) w h in
    let (name, w2, h2, k2) =
      bind-eq-ok (lift (validate_name req.name)) (checked naming user req) w1 k1 in
    let b = is_some (visibility_from_i32 req.visibility) in
    let e = invalid (text "visibility must be 0, 10 or 20") in
    let make_at = make_in naming req name in
    let (_, w3, h3, k3) =
      bind-eq-ok (check b e) (λ _. target user req.namespace_id >>= make_at) w2 k2 in
    let (n, w4, h4, k4) = bind-eq-ok (target user req.namespace_id) make_at w3 k3 in
    let (id, w5, _, k5) =
      bind-eq-ok reserve_disk_id (λ id. make req name n (hash_of naming id) id) w4 k4 in
    let (seen, s3) = check-eq-ok b e w2 w3 h3 in
    let (fits, there) = make-Fits req name n (hash_of naming id) id q w5 v k5 in
    let (valid, s1) = lift-eq-ok (validate_path_segment req.path) w w1 h1 in
    let (_, s2) = lift-eq-ok (validate_name req.name) w1 w2 h2 in
    let same : w3.db ≡ w.db = ap (λ (x : World). x.db) (s3 ∙ s2 ∙ s1) in
    (
      valid,
      seen,
      (
        n,
        subst (λ d. Writable d user n) same (target-Writable user req.namespace_id n w3 w4 h4),
        fits,
      ),
      there,
    )

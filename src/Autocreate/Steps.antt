-- ===== src/Autocreate/Steps.antt =====
-- A push that makes a project, as steps of the database's relation.
use rgit.Common.{
  text, ℕ, ◌≡◌, Str, not, Option, none, some, pos, arith, ◌||◌, str_eq, any, Bool-cases, inl, inr,
}
use rgit.Error.{Error, db, invalid, not_found, unique_violation, git, io}
use rgit.Result.{Result, ok, err}
use rgit.PathSegment.{validate_path_segment, is_reserved_root}
use rgit.Models.{User, Namespace, Project}
use rgit.Store.{Db, World, M, pure, query, execute, map_err, lift, check, require, ◌>>=◌, ◌>>◌}
use rgit.Store.Calls.{bind-eq-ok, execute-eq-ok}
use rgit.Auth.Authorize.{is_id}
use rgit.Tables.Groups.{insert_namespace, upsert_group_member, group_kind}
use rgit.Tables.Projects.{allocate_disk_id, insert_project}
use rgit.Groups.{level_in}
use rgit.Locate.{namespace_at, project_in}
use rgit.Tables.Invariant.{Step, Reach, here, next, autocreate_group, elsewhere, Invariant}
use rgit.Tables.Invariant.Runs.{
  Runs, Reach-Reach, bind-Runs, pure-Runs, lift-Runs, require-Runs, query-Runs, execute-Runs,
  transaction-Runs, check-Runs, if-Runs, map_err-eq-ok, Runs-Invariant,
}
use rgit.Autocreate.{
  hash_of, make_dir, Naming, namespace_exists, new_namespace, check_member, new_rows, writable,
  ensure_writable_namespace, reserve_disk_id, init_bare, outside, cleanup_new_repo, cleaned,
  or_cleanup, inserted, insert_row, new_project, found_or_made, ensure_project_for_push,
}

abbrev ns_row : User → Str → M Namespace
ns_row user path =
    map_err (namespace_exists path) (execute (insert_namespace (new_namespace path user.id)))

abbrev owner_row : User → Namespace → M (Unit {0})
owner_row user ns = execute (upsert_group_member ns.id user.id (pos 50))

created :
    (user : User) (path : Str) (r : Namespace) (w v : World)
    → new_rows user path w ≡ (ok r, v)
    → Reach w.db v.db
created user path r w v h =
    let (row, x, a, b) =
      bind-eq-ok (ns_row user path) (λ ns. owner_row user ns >>= (λ _. pure ns)) w h in
    let (i, _, _) = execute-eq-ok (insert_namespace (new_namespace path user.id)) w x (
      map_err-eq-ok (namespace_exists path)
        (execute (insert_namespace (new_namespace path user.id))) w x a) in
    let (_, y, c, d) = bind-eq-ok (owner_row user row) (λ _. pure row) x b in
    let (j, _, _) = execute-eq-ok (upsert_group_member row.id user.id (pos 50)) x y c in
    let e : y ≡ v = cc in
    let k : upsert_group_member row.id user.id (pos 50) x.db ≡ ok (tt, v.db) = ground arith in
    next here (autocreate_group (new_namespace path user.id) row user.id x.db i k)

check_member-Runs : (user : User) (ns : Namespace) → Runs (check_member user ns)
check_member-Runs user ns =
    if-Runs (str_eq ns.kind group_kind) _ _
      (bind-Runs (query (level_in ns.id user.id)) _ (query-Runs _)
        (λ l. bind-Runs _ _ (check-Runs _ _) (λ _. pure-Runs ns)))
      (record { at = λ w. here })

writable-Runs :
    (user : User) (path : Str) (found : Option Namespace) → Runs (writable user path found)
writable-Runs user path none =
    transaction-Runs (new_rows user path) (λ r w v h. created user path r w v h)
writable-Runs user path (some ns) =
    if-Runs (user.is_admin || is_id ns.owner_user_id user.id) _ _ (pure-Runs ns)
      (check_member-Runs user ns)

ensure_writable_namespace-Runs :
    (user : User) (path : Str) → Runs (ensure_writable_namespace user path)
unfolding ensure_writable_namespace
ensure_writable_namespace-Runs user path =
    bind-Runs (query (namespace_at path)) (writable user path) (query-Runs _)
      (writable-Runs user path)

allocate-Step : (n : ℕ) (d d' : Db) → allocate_disk_id d ≡ ok (n, d') → Reach d d'
unfolding allocate_disk_id
allocate-Step n d d' h = next here (elsewhere (ground arith) (ground arith) (ground arith))

reserve_disk_id-Runs : Runs reserve_disk_id
unfolding reserve_disk_id
reserve_disk_id-Runs =
    transaction-Runs (execute allocate_disk_id) (λ n w v h.
      let (e, _, _) = execute-eq-ok allocate_disk_id w v h in allocate-Step n w.db v.db e)

outside-Runs : (e : Error) → Runs (outside e)
outside-Runs e = record { at = λ w. here }

init_bare-Runs : (hash : Str) → Runs (init_bare hash)
unfolding init_bare
init_bare-Runs hash = record {
  at = λ w. elim (Bool-cases (any (str_eq hash) w.repos)) [
    | inl t ↦ rw t here
    | inr f ↦ rw f (
        (bind-Runs (outside io >> make_dir hash >> outside (git (text "init"))) _
            (bind-Runs (outside io >> make_dir hash) _
              (bind-Runs (outside io) _ (outside-Runs io) (λ _. record { at = λ w. here }))
              (λ _. outside-Runs _))
            (λ _. outside-Runs _)).at
          w)
  ];
}

cleaned-Runs :
    (d : Db) (hash : Str) (r : Result (Unit {0}) × World)
    → Reach d r.1.db
    → Reach d (cleaned hash r).1.db
cleaned-Runs d hash (ok u, w) h = h
cleaned-Runs d hash (err e, w) h = h

or_cleanup-Runs : (hash : Str) (m : M (Unit {0})) → Runs m → Runs (or_cleanup hash m)
or_cleanup-Runs hash m h = record { at = λ w. cleaned-Runs w.db hash (m w) (h.at w) }

insert_project-Step : (p q : Project) (d d' : Db) → insert_project p d ≡ ok (q, d') → Step d d'
unfolding insert_project
insert_project-Step p q d d' h = elsewhere (ground arith) (ground arith) (ground arith)

inserted-Runs :
    (d : Db) (ns : ℕ) (path hash : Str) (r : Result Project × World)
    → Reach d r.1.db
    → Reach d (inserted ns path hash r).1.db
inserted-Runs d ns path hash (ok p, w) h = h
inserted-Runs d ns path hash (err (db unique_violation), w) h = Reach-Reach h (
    (bind-Runs (cleanup_new_repo hash)
        (λ _. query (project_in ns path) >>= (λ row. require row not_found))
        (record { at = λ w. here })
        (λ _.
          bind-Runs (query (project_in ns path)) _ (query-Runs _)
            (λ row. require-Runs row not_found))).at
      w)
inserted-Runs d ns path hash (err e, w) h = h

insert_row-Runs :
    (ns : ℕ) (path : Str) (disk_id : ℕ) (hash : Str) → Runs (insert_row ns path disk_id hash)
insert_row-Runs ns path disk_id hash = record {
  at = λ w.
      inserted-Runs w.db ns path hash
        (execute (insert_project (new_project ns path disk_id hash)) w)
        ((execute-Runs (insert_project (new_project ns path disk_id hash))
            (insert_project-Step (new_project ns path disk_id hash))).at
          w);
}

module _ (naming : Naming) where
  found_or_made-Runs :
      (ns : Namespace) (path : Str) (found : Option Project)
      → Runs (found_or_made naming ns path found)
  found_or_made-Runs ns path (some p) = pure-Runs p
  found_or_made-Runs ns path none = bind-Runs reserve_disk_id _ reserve_disk_id-Runs (λ disk_id.
      bind-Runs (or_cleanup (hash_of naming disk_id) (init_bare (hash_of naming disk_id))) _
        (or_cleanup-Runs _ _ (init_bare-Runs _)) (λ _. insert_row-Runs _ _ _ _))

  ensure_project_for_push-Runs :
      (user : User) (ns path : Str) → Runs (ensure_project_for_push naming user ns path)
  unfolding ensure_project_for_push
  ensure_project_for_push-Runs user ns path =
      bind-Runs
        (lift (validate_path_segment ns)
          >> lift (validate_path_segment path)
          >> check (not (is_reserved_root ns)) (invalid (text "namespace path is reserved"))
          >> ensure_writable_namespace user ns)
        _
        (bind-Runs _ _
          (bind-Runs (lift (validate_path_segment ns) >> lift (validate_path_segment path)) _
            (bind-Runs (lift (validate_path_segment ns)) _ (lift-Runs _) (λ _. lift-Runs _))
            (λ _. check-Runs _ _))
          (λ _. ensure_writable_namespace-Runs user ns))
        (λ n.
          bind-Runs (query (project_in n.id path)) (found_or_made naming n path) (query-Runs _)
            (found_or_made-Runs n path))

  -- A push to a missing repository, whichever calls fail, takes a database with an active admin and an
  -- owner for every group to such a database.
  pub ensure_project_for_push-Invariant :
      (user : User) (ns path : Str) (w : World)
      → Invariant w.db
      → Invariant (ensure_project_for_push naming user ns path w).1.db
  ensure_project_for_push-Invariant user ns path w v =
      Runs-Invariant _ w (ensure_project_for_push-Runs user ns path) v

-- ===== src/Autocreate/Starts.antt =====
-- Making a project for a push starts no service.
use rgit.Common.{
  ℕ, Str, text, ◌≡◌, refl, ◌∙◌, not, ◌||◌, Option, none, some, pos, any, str_eq, Bool-cases, inl,
  inr,
}
use rgit.Error.{Error, db, unique_violation, invalid, not_found, git, io}
use rgit.Result.{Result, ok, err}
use rgit.PathSegment.{validate_path_segment, is_reserved_root}
use rgit.Models.{User, Namespace, Project}
use rgit.Store.{World, query, execute, require, ◌>>=◌, ◌>>◌}
use rgit.Store.Starts.{
  StartsNone, query-StartsNone, execute-StartsNone, transaction-StartsNone, lift-StartsNone,
  pure-StartsNone, require-StartsNone, check-StartsNone, map_err-StartsNone, if-StartsNone,
  bind-StartsNone,
}
use rgit.Auth.Authorize.{is_id}
use rgit.Tables.Groups.{insert_namespace, upsert_group_member, group_kind}
use rgit.Tables.Projects.{allocate_disk_id, insert_project}
use rgit.Groups.{level_in}
use rgit.Locate.{namespace_at, project_in}
use rgit.Autocreate.{
  hash_of, make_dir, Naming, namespace_exists, new_namespace, check_member, new_rows, writable,
  ensure_writable_namespace, reserve_disk_id, init_bare, outside, cleanup_new_repo, cleaned,
  or_cleanup, inserted, insert_row, new_project, make_project, found_or_made,
  ensure_project_for_push,
}

new_rows-StartsNone : (user : User) (path : Str) → StartsNone (new_rows user path)
new_rows-StartsNone user path =
    bind-StartsNone _ _
      (map_err-StartsNone (namespace_exists path) _
        (execute-StartsNone (insert_namespace (new_namespace path user.id))))
      (λ ns.
        bind-StartsNone _ _ (execute-StartsNone (upsert_group_member ns.id user.id (pos 50)))
          (λ _. pure-StartsNone ns))

check_member-StartsNone : (user : User) (ns : Namespace) → StartsNone (check_member user ns)
check_member-StartsNone user ns =
    if-StartsNone (str_eq ns.kind group_kind) _ _
      (bind-StartsNone (query (level_in ns.id user.id)) _ (query-StartsNone _)
        (λ l. bind-StartsNone _ _ (check-StartsNone _ _) (λ _. pure-StartsNone ns)))
      (record { at = λ w. refl })

writable-StartsNone :
    (user : User) (path : Str) (found : Option Namespace) → StartsNone (writable user path found)
writable-StartsNone user path none =
    transaction-StartsNone (new_rows user path) (new_rows-StartsNone user path)
writable-StartsNone user path (some ns) =
    if-StartsNone (user.is_admin || is_id ns.owner_user_id user.id) _ _ (pure-StartsNone ns)
      (check_member-StartsNone user ns)

ensure_writable_namespace-StartsNone :
    (user : User) (path : Str) → StartsNone (ensure_writable_namespace user path)
unfolding ensure_writable_namespace
ensure_writable_namespace-StartsNone user path =
    bind-StartsNone (query (namespace_at path)) (writable user path) (query-StartsNone _)
      (writable-StartsNone user path)

outside-StartsNone : (e : Error) → StartsNone (outside e)
outside-StartsNone e = record { at = λ w. refl }

init_bare-StartsNone : (hash : Str) → StartsNone (init_bare hash)
unfolding init_bare
init_bare-StartsNone hash = record {
  at = λ w. elim (Bool-cases (any (str_eq hash) w.repos)) [
    | inl t ↦ rw t refl
    | inr f ↦ rw f (
        (bind-StartsNone (outside io >> make_dir hash >> outside (git (text "init"))) _
            (bind-StartsNone (outside io >> make_dir hash) _
              (bind-StartsNone (outside io) _ (outside-StartsNone io)
                (λ _. record { at = λ w. refl }))
              (λ _. outside-StartsNone _))
            (λ _. outside-StartsNone _)).at
          w)
  ];
}

cleaned-started :
    (hash : Str) (r : Result (Unit {0}) × World) → (cleaned hash r).1.started ≡ r.1.started
cleaned-started hash (ok u, w) = refl
cleaned-started hash (err e, w) = refl

inserted-started :
    (ns : ℕ) (path hash : Str) (r : Result Project × World)
    → (inserted ns path hash r).1.started ≡ r.1.started
inserted-started ns path hash (ok p, w) = refl
inserted-started ns path hash (err (db unique_violation), w) =
    (bind-StartsNone (cleanup_new_repo hash)
        (λ _. query (project_in ns path) >>= (λ row. require row not_found))
        (record { at = λ w. refl })
        (λ _.
          bind-StartsNone (query (project_in ns path)) _ (query-StartsNone _)
            (λ row. require-StartsNone row not_found))).at
      w
inserted-started ns path hash (err e, w) = refl

make_project-StartsNone :
    (naming : Naming) (ns : Namespace) (path : Str) → StartsNone (make_project naming ns path)
unfolding reserve_disk_id
make_project-StartsNone naming ns path =
    bind-StartsNone reserve_disk_id _
      (transaction-StartsNone (execute allocate_disk_id) (execute-StartsNone allocate_disk_id))
      (λ disk_id.
        let hash = hash_of naming disk_id in
        let row : StartsNone (insert_row ns.id path disk_id hash) = record {
          at = λ w.
              inserted-started ns.id path hash
                (execute (insert_project (new_project ns.id path disk_id hash)) w)
              ∙ (execute-StartsNone (insert_project (new_project ns.id path disk_id hash))).at w;
        } in
        bind-StartsNone (or_cleanup hash (init_bare hash)) _
          (record {
            at = λ w. cleaned-started hash (init_bare hash w) ∙ (init_bare-StartsNone hash).at w;
          })
          (λ _. row))

found_or_made-StartsNone :
    (naming : Naming) (ns : Namespace) (path : Str) (o : Option Project)
    → StartsNone (found_or_made naming ns path o)
found_or_made-StartsNone naming ns path (some p) = pure-StartsNone p
found_or_made-StartsNone naming ns path none = make_project-StartsNone naming ns path

pub ensure_project_for_push-StartsNone :
    (naming : Naming) (user : User) (ns path : Str)
    → StartsNone (ensure_project_for_push naming user ns path)
unfolding ensure_project_for_push
ensure_project_for_push-StartsNone naming user ns path =
    bind-StartsNone _ _
      (bind-StartsNone _ _
        (bind-StartsNone _ _
          (bind-StartsNone _ _ (lift-StartsNone (validate_path_segment ns))
            (λ _. lift-StartsNone (validate_path_segment path)))
          (λ _.
            check-StartsNone (not (is_reserved_root ns))
              (invalid (text "namespace path is reserved"))))
        (λ _. ensure_writable_namespace-StartsNone user ns))
      (λ n.
        bind-StartsNone (query (project_in n.id path)) _ (query-StartsNone _)
          (found_or_made-StartsNone naming n path))

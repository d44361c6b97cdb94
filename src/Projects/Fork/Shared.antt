-- ===== src/Projects/Fork/Shared.antt =====
-- Who may fork a project, and what the fork shares with it.
use rgit.Common.{
  ℕ, suc, ◌≡◌, refl, sym, ap, ◌∙◌, subst, Str, true, ◌&&◌, ◌==◌, ◌⊎◌, some, List, [], ◌∷◌, any,
  any-of_Mem, map, map-Mem, Mem-map, Mem-retain, Memᴰ, arith, Bool-cases, inl, inr,
}
use rgit.Result.{Result, ok, err}
use rgit.Perm.{read}
use rgit.Models.{User, Namespace, Project, ProjectLfsObject}
use rgit.Store.{Db, World, execute, transaction, pure, lift, map_err, ◌>>=◌, ◌>>◌}
use rgit.Store.Calls.{bind-eq-ok, execute-eq-ok, transaction-eq-ok}
use rgit.Auth.Authorize.Policy.{May, authorize_repo_sound}
use rgit.Tables.Projects.{insert_project}
use rgit.Autocreate.{Naming, hash_of, reserve_disk_id}
use rgit.Auth.Authorize.{authorize_repo}
use rgit.PathSegment.{validate_path_segment}
use rgit.Groups.{validate_name}
use rgit.Tables.Groups.{coalesce}
use rgit.State.{begin_git_operation}
use rgit.Locate.{locate}
use rgit.Locate.Named.{locate-Found}
use rgit.Projects.{render}
use rgit.Projects.Archived.{render-same}
use rgit.Projects.Create.{removed, or_removed}
use rgit.Projects.Fork.{
  ForkRequest, target, fork_local, row_of, copy_repo, fork_to, fork_source, fork, target_taken,
  insert_fork, has_link, add_links, links_of, link, share_objects,
}

has_link-Mem :
    (rows : List ProjectLfsObject) (o : ProjectLfsObject) → Memᴰ o rows → has_link rows o ≡ true
has_link-Mem rows o m =
    any-of_Mem (λ r. r.project_id == o.project_id && r.lfs_object_id == o.lfs_object_id) rows o m
      (ground arith)

-- The rows of before stay.
has_link-add_links :
    (os rows : List ProjectLfsObject) (o : ProjectLfsObject)
    → has_link rows o ≡ true
    → has_link (add_links os rows) o ≡ true
has_link-add_links [] rows o h = h
has_link-add_links (p ∷ os) rows o h = ground (arith, has_link-add_links os rows o h)

-- Those to be added are there afterwards.
add_links-has_link :
    (os rows : List ProjectLfsObject) (o : ProjectLfsObject)
    → Memᴰ o os
    → has_link (add_links os rows) o ≡ true
add_links-has_link [] rows o m = elim m [ ]
add_links-has_link (p ∷ os) rows o (Memᴰ.head e) =
    elim (Bool-cases (has_link (add_links os rows) p)) [
      | inl t ↦ rw t (rw e t)
      | inr f ↦ rw f (has_link-Mem (p ∷ add_links os rows) o (Memᴰ.head e))
    ]
add_links-has_link (p ∷ os) rows o (Memᴰ.tail n) = ground (arith, add_links-has_link os rows o n)

add_links-cases :
    (p : ProjectLfsObject) (os rows : List ProjectLfsObject)
    → (add_links (p ∷ os) rows ≡ add_links os rows)
      ⊎ (add_links (p ∷ os) rows ≡ p ∷ add_links os rows)
add_links-cases p os rows = elim (Bool-cases (has_link (add_links os rows) p)) [
  | inl t ↦ inl (rw t refl)
  | inr f ↦ inr (rw f refl)
]

add_links-Mem :
    (os rows : List ProjectLfsObject) (o : ProjectLfsObject)
    → Memᴰ o (add_links os rows)
    → Memᴰ o os ⊎ Memᴰ o rows
add_links-Mem [] rows o m = inr m
add_links-Mem (p ∷ os) rows o m = elim (add_links-cases p os rows) [
  | inl e ↦ elim (add_links-Mem os rows o (subst (λ xs. Memᴰ o xs) e m)) [
    | inl n ↦ inl (Memᴰ.tail n)
    | inr n ↦ inr n
  ]
  | inr e ↦ elim (subst (λ xs. Memᴰ o xs) e m) [
    | Memᴰ.head h ↦ inl (Memᴰ.head h)
    | Memᴰ.tail k ↦ elim (add_links-Mem os rows o k) [ inl n ↦ inl (Memᴰ.tail n) | inr n ↦ inr n ]
  ]
]

-- Every object of the source is one of the fork.
abbrev pub Shares : ℕ → ℕ → Db → Type 0
Shares source_id fork_id d =
    (o : ProjectLfsObject)
    → Memᴰ o d.project_lfs_objects
    → o.project_id ≡ source_id
    → has_link d.project_lfs_objects (link fork_id o) ≡ true

share_objects-Shares :
    (fork_id source_id : ℕ) (d e : Db)
    → share_objects fork_id source_id d ≡ ok (tt, e)
    → Shares source_id fork_id e
unfolding share_objects
share_objects-Shares fork_id source_id d e h o m s =
    let links = map (link fork_id) (links_of source_id d) in
    let rows : e.project_lfs_objects ≡ add_links links d.project_lfs_objects = ground arith in
    elim (add_links-Mem links d.project_lfs_objects o (subst (λ xs. Memᴰ o xs) rows m)) [
      | inl n ↦
          let (a, k, made) = map-Mem (link fork_id) (links_of source_id d) o n in
          let own : o.project_id ≡ fork_id = ap (λ (r : ProjectLfsObject). r.project_id) made in
          subst
            (λ t.
              any
                (λ (r : ProjectLfsObject). r.project_id == t && r.lfs_object_id == o.lfs_object_id)
                e.project_lfs_objects
              ≡ true)
            own (has_link-Mem e.project_lfs_objects o m)
      | inr n ↦
          let k =
            Mem-retain (λ (r : ProjectLfsObject). r.project_id == source_id) d.project_lfs_objects o
              n (ground arith) in
          rw rows (
            add_links-has_link links d.project_lfs_objects (link fork_id o)
              (Mem-map (link fork_id) (links_of source_id d) o k))
    ]

-- A fork of the source, and the source's reader.
pub record IsFork (user : User) (source q : Project) (d : Db) (v : World) : Type 0 where
  pub may : May d (some user) source read
  pub parent : q.forked_from_project_id ≡ some source.id
  pub visibility : q.visibility ≡ source.visibility
  pub shares : Shares source.id q.id v.db

-- What the inserted row has from the row that was asked for, and the objects it shares.
abbrev Copies : Project → Project → Project → World → Type 0
Copies source row q v =
    Shares source.id q.id v.db
    × (q.forked_from_project_id ≡ row.forked_from_project_id)
    × (q.visibility ≡ row.visibility)

inserted-row :
    (row q : Project) (w v : World)
    → map_err target_taken (execute (insert_project row)) w ≡ (ok q, v)
    → (q.forked_from_project_id ≡ row.forked_from_project_id) × (q.visibility ≡ row.visibility)
unfolding execute insert_project
inserted-row row q w v h = (ground arith, ground arith)

insert_fork-made :
    (source row q : Project) (w v : World)
    → insert_fork source row w ≡ (ok q, v)
    → Copies source row q v
insert_fork-made source row q w v h =
    let insert = map_err target_taken (execute (insert_project row)) in
    let share = λ (forked : Project). execute (share_objects forked.id source.id) >> pure forked in
    let (forked, x, a, b) = bind-eq-ok insert share w h in
    let (_, y, c, d) =
      bind-eq-ok (execute (share_objects forked.id source.id)) (λ _. pure forked) x b in
    let (shared, _, _) = execute-eq-ok (share_objects forked.id source.id) x y c in
    let same : forked ≡ q = ground arith in
    let end : y ≡ v = ground arith in
    let (parent, visibility) = inserted-row row forked w x a in
    (
      subst (λ (z : World). Shares source.id q.id z.db) end
          (subst (λ (r : Project). Shares source.id r.id y.db) same
            (share_objects-Shares forked.id source.id x.db y.db shared)),
      ap (λ (r : Project). r.forked_from_project_id) (sym same) ∙ parent,
      ap (λ (r : Project). r.visibility) (sym same) ∙ visibility,
    )

removed-eq-ok {ℓ} :
    {A : Type ℓ} (hash : Str) (r : Result A × World) {a : A} {v : World}
    → removed hash r ≡ (ok a, v)
    → r ≡ (ok a, v)
removed-eq-ok hash (ok b, w) h = h
removed-eq-ok hash (err e, w) h = cc

copy_repo-Copies :
    (source row q : Project) (w v : World)
    → copy_repo source row w ≡ (ok q, v)
    → Copies source row q v
copy_repo-Copies source row q w v h =
    let insert = or_removed row.disk_hash (transaction (insert_fork source row)) in
    let clone = or_removed row.disk_hash (fork_local row.disk_hash) in
    let (_, x, a, b) = bind-eq-ok begin_git_operation (λ _. clone >> (insert >>= render)) w h in
    let (_, z, c, d) = bind-eq-ok clone (λ _. insert >>= render) x b in
    let (p, y, e, f) = bind-eq-ok insert render z d in
    let (t, made, same) =
      transaction-eq-ok (insert_fork source row) z y
        (removed-eq-ok row.disk_hash (transaction (insert_fork source row) z) e) in
    let (shares, parent, visibility) =
      insert_fork-made source row p (record z { calls = suc z.calls }) t made in
    let (one, kept) = render-same p q y v f in
    let whole : t.db ≡ v.db = sym same.db ∙ sym kept in
    subst (λ (r : Project). Copies source row r v) one
      (subst (λ (d : Db). Shares source.id p.id d) whole shares, parent, visibility)

module _ (naming : Naming) where
  fork_to-Copies :
      (source q : Project) (path name : Str) (ns : Namespace) (w v : World)
      → fork_to naming source path name ns w ≡ (ok q, v)
      → Shares source.id q.id v.db
        × (q.forked_from_project_id ≡ some source.id)
        × (q.visibility ≡ source.visibility)
  fork_to-Copies source q path name ns w v h =
      let copy = λ (disk_id : ℕ).
        copy_repo source (row_of source ns.id path name disk_id (hash_of naming disk_id)) in
      let (disk_id, x, a, b) = bind-eq-ok reserve_disk_id copy w h in
      copy_repo-Copies source (row_of source ns.id path name disk_id (hash_of naming disk_id)) q x v
        b

  fork_source-IsFork :
      (user : User) (req : ForkRequest) (source q : Project) (w v : World)
      → fork_source naming user req source w ≡ (ok q, v)
      → IsFork user source q w.db v
  fork_source-IsFork user req source q w v h =
      let path = coalesce req.path source.path in
      let finish = λ (ns : Namespace) (name : Str). fork_to naming source path name ns in
      let named =
        λ (ns : Namespace). lift (validate_name (coalesce req.name source.name)) >>= finish ns in
      let in_ns = λ (ns : Namespace). lift (validate_path_segment path) >> named ns in
      let (_, x, a, b) =
        bind-eq-ok (authorize_repo (some user) source read)
          (λ _. target user req.namespace_id >>= in_ns) w h in
      let (ns, y, c, d) = bind-eq-ok (target user req.namespace_id) in_ns x b in
      let (_, z, e, f) = bind-eq-ok (lift (validate_path_segment path)) (λ _. named ns) y d in
      let (name, t, i, j) =
        bind-eq-ok (lift (validate_name (coalesce req.name source.name))) (finish ns) z f in
      let (shares, parent, visibility) = fork_to-Copies source q path name ns t v j in
      record {
        may = authorize_repo_sound source read (some user) w x a;
        parent = parent;
        visibility = visibility;
        shares = shares;
      }

  -- Whatever calls fail: where a fork succeeds, its source is a project that the policy let the caller read; the fork
  -- names it as its parent and is as visible as it, and every LFS object that the source has is one of the fork.
  pub fork-IsFork :
      (user : User) (id : Str) (req : ForkRequest) (q : Project) (w v : World)
      → fork naming user id req w ≡ (ok q, v)
      → (source : Project) × Memᴰ source w.db.projects × IsFork user source q w.db v
  unfolding fork
  fork-IsFork user id req q w v h =
      let (source, x, a, b) = bind-eq-ok (locate id) (fork_source naming user req) w h in
      let (stored, kept) = locate-Found id w x source a in
      let made = fork_source-IsFork user req source q x v b in
      (source, stored, subst (λ d. IsFork user source q d v) kept made)

-- ===== src/Shell/Run/Rights.antt =====
-- What a forced command that completes has run, on which project, and by which right.
use rgit.Common.{
  ℕ, text, ◌&&◌, refl, ◌∷◌, ◌≡◌, sym, ap, ◌∙◌, subst, Bool, Option, some, arith, Bool-cases, inl,
  inr, ℤ,
}
use rgit.Error.{git as git_error}
use rgit.Perm.{RepoAction}
use rgit.Models.{User, Project}
use rgit.Store.{Db, World, execute}
use rgit.Auth.Authorize.{authorize_repo}
use rgit.Auth.Authorize.Policy.{May, authorize_repo_sound}
use rgit.Auth.Token.{issue_lfs_token, draw, now}
use rgit.Tables.Projects.{set_default_branch}
use rgit.Repo.Head.{refresh_head_branch_after_push}
use rgit.Autocreate.{outside}
use rgit.Protocol.{Service, upload_pack, receive_pack, upload_archive}
use rgit.GitHttp.Resolved.{authorize_repo-db}
use rgit.Shell.{ShellAction, git, lfs, ShellCommand, repo_action}
use rgit.Shell.Run.Steps.{bind-eq-completed, call_or-eq-completed}
use rgit.Shell.Run.{
  completed, ◌>>=◌, ◌>>◌, call_or, as_internal, Ran, git_service, lfs_grant, Host, find_project,
  found_or_created, refused_as, mark_key_used, complete, code_or_one, is_success, is_receive,
  authorize, update_after_push, after_service, configure, start_service, wait_service, run_service,
  issue_grant, act, run_command,
}
use rgit.Shell.Run.Harmless.{
  SameRights, May-same, SameRights-trans, Harmless, same, after-Harmless, mark_key_used-Harmless,
  call_or-Harmless, execute-Harmless, now-Harmless, bind-Harmless, complete-Harmless,
  outside-Harmless,
}

-- What was started, and on which project.
abbrev pub ran_action : Ran → ShellAction
ran_action (git_service service p code) = git service
ran_action (lfs_grant can_write p g) = lfs can_write

abbrev pub ran_project : Ran → Project
ran_project (git_service service p code) = p
ran_project (lfs_grant can_write p g) = p

-- It is what the command asks for, on the project that was authorized.
record Runs (d : Db) (action : ShellAction) (p : Project) (r : Ran) (v : World) : Type 0 where
  asked : ran_action r ≡ action
  on_project : ran_project r ≡ p
  rights : SameRights d v.db

module _ (host : Host) where
  pub configure-Harmless : (service : Service) → Harmless (configure host service)
  configure-Harmless upload_pack = complete-Harmless tt
  configure-Harmless receive_pack =
      bind-Harmless _ (λ _. call_or as_internal (outside _)) (outside-Harmless _)
        (λ _. outside-Harmless _)
  configure-Harmless upload_archive = complete-Harmless tt

  update_after_push-Harmless : (p : Project) → Harmless (update_after_push host p)
  unfolding update_after_push
  update_after_push-Harmless p =
      bind-Harmless
        (call_or as_internal
          (λ w. ((refresh_head_branch_after_push host.git (host.pushed p)).0, w)))
        _
        (call_or-Harmless as_internal
          (λ w. ((refresh_head_branch_after_push host.git (host.pushed p)).0, w))
          (record { at = λ w. refl }) (λ w. same w.db))
        (λ head. bind-Harmless (call_or as_internal now) _ now-Harmless (λ t.
          execute-Harmless (set_default_branch t p.id head) (λ a d e j. record {
            namespaces = ground arith;
            project_members = ground arith;
            group_members = ground arith;
          })))

  after_service-Harmless :
      (service : Service) (p : Project) (code : Option ℤ)
      → Harmless (after_service host service p code)
  after_service-Harmless service p code =
      elim (Bool-cases (is_success code && is_receive service)) [
        | inl t ↦ rw t (update_after_push-Harmless p)
        | inr f ↦ rw f (complete-Harmless tt)
      ]

  pub wait_service-Harmless :
      (service : Service) (p : Project) → Harmless (wait_service host service p)
  wait_service-Harmless service p =
      bind-Harmless _ _ (outside-Harmless (git_error (text "service"))) (λ _.
        bind-Harmless (after_service host service p (host.exit_code service p)) _
          (after_service-Harmless service p (host.exit_code service p))
          (λ _. complete-Harmless (git_service service p (code_or_one (host.exit_code service p)))))

  run_service-Runs :
      (service : Service) (p : Project) (w v : World) (r : Ran)
      → run_service host service p w ≡ (completed r, v)
      → Runs w.db (git service) p r v
  run_service-Runs service p w v r h =
      let code = host.exit_code service p in
      let (_, x, a, b) =
        bind-eq-completed (configure host service)
          (λ _. start_service host service p >> wait_service host service p) w h in
      let y : World = record x { started = (service, p) ∷ x.started } in
      let (_, z, c, d) =
        bind-eq-completed (call_or as_internal (outside (git_error (text "service"))))
          (λ _.
            after_service host service p code
            >> complete (git_service service p (code_or_one code)))
          y b in
      let (_, t, e, f) =
        bind-eq-completed (after_service host service p code)
          (λ _. complete (git_service service p (code_or_one code))) z d in
      record {
        asked = ground arith;
        on_project = ground arith;
        rights =
            SameRights-trans w.db x.db v.db
              (after-Harmless (configure host service) w (completed tt, x)
                (configure-Harmless service) a)
              (after-Harmless (wait_service host service p) y (completed r, v)
                (wait_service-Harmless service p) b);
      }

  issue_grant-Runs :
      (u : User) (c : ShellCommand) (can_write : Bool) (p : Project) (w v : World) (r : Ran)
      → issue_grant host u c can_write p w ≡ (completed r, v)
      → Runs w.db (lfs can_write) p r v
  unfolding issue_lfs_token draw execute
  issue_grant-Runs u c can_write p w v r h = record {
    asked = ground arith;
    on_project = ground arith;
    rights = record {
      namespaces = ground arith;
      project_members = ground arith;
      group_members = ground arith;
    };
  }

  act-Runs :
      (u : User) (c : ShellCommand) (p : Project) (action : ShellAction) (w v : World) (r : Ran)
      → act host u c p action w ≡ (completed r, v)
      → Runs w.db action p r v
  act-Runs u c p (git service) w v r h = run_service-Runs service p w v r h
  act-Runs u c p (lfs can_write) w v r h = issue_grant-Runs u c can_write p w v r h

  pub authorize-May :
      (u : User) (a : RepoAction) (p : Project) (w v : World)
      → authorize host u a p w ≡ (completed tt, v)
      → May w.db (some u) p a × (v.db ≡ w.db)
  authorize-May u a p w v h =
      let e = call_or-eq-completed (refused_as a p) (authorize_repo (some u) p a) w h in
      (
        authorize_repo_sound p a (some u) w v e,
        ap (λ (x : _ × World). x.1.db) (sym e) ∙ authorize_repo-db (some u) p a w,
      )

  pub command-May :
      (key_id : ℕ) (c : ShellCommand) (u : User) (w v : World) (r : Ran)
      → run_command host key_id c u w ≡ (completed r, v)
      → (ran_action r ≡ c.action) × May v.db (some u) (ran_project r) (repo_action c.action)
  command-May key_id c u w v r h =
      let (p, x, _, b) =
        bind-eq-completed (find_project c.namespace c.project >>= found_or_created host u c)
          (λ p.
            authorize host u (repo_action c.action) p
            >> (mark_key_used key_id >> act host u c p c.action))
          w h in
      let (_, y, a, d) =
        bind-eq-completed (authorize host u (repo_action c.action) p)
          (λ _. mark_key_used key_id >> act host u c p c.action) x b in
      let (_, z, e, f) =
        bind-eq-completed (mark_key_used key_id) (λ _. act host u c p c.action) y d in
      let (may, kept) = authorize-May u (repo_action c.action) p x y a in
      let runs = act-Runs u c p c.action z v r f in
      let rights : SameRights x.db v.db =
        SameRights-trans x.db z.db v.db
          (subst (λ t. SameRights t z.db) kept
            (after-Harmless (mark_key_used key_id) y (completed tt, z)
              (mark_key_used-Harmless key_id) e))
          runs.rights in
      (
        runs.asked,
        subst (λ q. May v.db (some u) q (repo_action c.action)) (sym runs.on_project)
            (May-same x.db v.db (some u) p (repo_action c.action) rights may),
      )

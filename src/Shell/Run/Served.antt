-- ===== src/Shell/Run/Served.antt =====
-- The services that a forced command starts, whether it completes or fails.
use rgit.Common.{
  ℕ, Str, ◌≡◌, refl, sym, ap, ◌∙◌, subst, Bool, not, ◌||◌, Option, none, some, ◌∷◌, arith,
  Bool-cases, ◌⊎◌, inl, inr,
}
use rgit.Perm.{RepoAction}
use rgit.Models.{User, Project}
use rgit.Store.{Db, World, query, execute}
use rgit.Store.Starts.{StartsNone}
use rgit.Auth.Authorize.{authorize_repo, effective_access_level}
use rgit.Auth.Authorize.Policy.{May}
use rgit.Auth.Token.{issue_lfs_token, draw}
use rgit.Autocreate.{ensure_project_for_push}
use rgit.Autocreate.Starts.{ensure_project_for_push-StartsNone}
use rgit.Protocol.{Service, upload_pack, receive_pack, upload_archive}
use rgit.Shell.{ShellAction, git, lfs, ShellCommand, repo_action}
use rgit.Shell.Run.{
  Answer, completed, failed, S, complete, lfs_grant, grant_of, lfs_token_ttl_seconds, proceed,
  ◌>>=◌, ◌>>◌, call_or, as_internal, Host, find_project, created, creation_error, found_or_created,
  refused_as, mark_key_used, authorize, configure, start_service, wait_service, run_service,
  issue_grant, act, run_command,
}
use rgit.Shell.Run.Harmless.{
  SameRights, SameRights-trans, May-same, bind-started, call_or-started, after-Harmless,
  mark_key_used-Harmless,
}
use rgit.Shell.Run.Rights.{configure-Harmless, wait_service-Harmless, authorize-May}

-- No service was started, or one, for which there is the reason.
abbrev pub StartsFor : (Service → Project → World → Type 0) → World → World → Type 0
StartsFor P w v =
    (v.started ≡ w.started)
    ⊎ ((s : Service) × (p : Project) × (v.started ≡ (s, p) ∷ w.started) × P s p v)

module _ (P : Service → Project → World → Type 0) where
  -- A later part of a run, after parts that start nothing.
  later-StartsFor : (w x v : World) → x.started ≡ w.started → StartsFor P x v → StartsFor P w v
  later-StartsFor w x v e (inl h) = inl (h ∙ e)
  later-StartsFor w x v e (inr (s, p, h, k)) = inr (s, p, h ∙ ap (λ t. (s, p) ∷ t) e, k)

  pub bind-StartsFor {ℓ κ} :
      {A : Type ℓ} {B : Type κ} (m : S A) (f : A → S B) (w : World)
      → ((x : World) → (m x).1.started ≡ x.started)
      → ((a : A) (x : World) → m w ≡ (completed a, x) → StartsFor P x (f a x).1)
      → StartsFor P w ((m >>= f) w).1
  bind-StartsFor {A = A} {B = B} m f w quiet k = split (m w) refl
    where
      split : (r : Answer A × World) → m w ≡ r → StartsFor P w (proceed {B = B} r f).1
      split (failed e, x) h = inl (ap (λ (q : Answer A × World). q.1.started) (sym h) ∙ quiet w)
      split (completed a, x) h =
          later-StartsFor w x (f a x).1
            (ap (λ (q : Answer A × World). q.1.started) (sym h) ∙ quiet w) (k a x h)

-- A check of rights starts nothing.
authorize_repo-StartsNone :
    (caller : Option User) (p : Project) (a : RepoAction) → StartsNone (authorize_repo caller p a)
unfolding authorize_repo effective_access_level query
authorize_repo-StartsNone none p a = record { at = λ w. ground arith }
authorize_repo-StartsNone (some u) p a = record { at = λ w. ground arith }

issue_lfs_token-StartsNone :
    (digest : Str → Str) (u p : ℕ) (b : Bool) (t : ℕ) → StartsNone (issue_lfs_token digest u p b t)
unfolding issue_lfs_token draw execute
issue_lfs_token-StartsNone digest u p b t = record { at = λ w. ground arith }

module _ (host : Host) where
  find_project-started :
      (ns path : Str) (w : World) → (find_project ns path w).1.started ≡ w.started
  unfolding find_project query
  find_project-started ns path w = ground arith

  found-started :
      (u : User) (c : ShellCommand) (o : Option Project) (w : World)
      → (found_or_created host u c o w).1.started ≡ w.started
  found-started u c (some p) w = refl
  found-started u c none w = by_action c.action
    where
      by_action : (a : ShellAction) → (created host u c a w).1.started ≡ w.started
      by_action (git receive_pack) =
          call_or-started creation_error
            (ensure_project_for_push host.naming u c.namespace c.project)
            (ensure_project_for_push-StartsNone host.naming u c.namespace c.project) w
      by_action (git upload_pack) = refl
      by_action (git upload_archive) = refl
      by_action (lfs b) = refl

  issue_grant-started :
      (u : User) (c : ShellCommand) (b : Bool) (p : Project) (w : World)
      → (issue_grant host u c b p w).1.started ≡ w.started
  issue_grant-started u c b p w = elim (Bool-cases (not host.lfs_enabled || not p.lfs_enabled)) [
    | inl t ↦ rw t refl
    | inr n ↦ rw n (
        bind-started
          (call_or as_internal
            (issue_lfs_token host.naming.digest u.id p.id b lfs_token_ttl_seconds))
          (λ token. complete (lfs_grant b p (grant_of host u c p token)))
          (call_or-started as_internal
            (issue_lfs_token host.naming.digest u.id p.id b lfs_token_ttl_seconds)
            (issue_lfs_token-StartsNone host.naming.digest u.id p.id b lfs_token_ttl_seconds))
          (λ a x. refl) w)
  ]

  -- The service that was asked for, on the project, with all rights as they were.
  abbrev Asked : Db → Service → Project → Service → Project → World → Type 0
  Asked d service p s q v = (s ≡ service) × (q ≡ p) × SameRights d v.db

  run_service-StartsFor :
      (service : Service) (p : Project) (w : World)
      → StartsFor (Asked w.db service p) w (run_service host service p w).1
  run_service-StartsFor service p w =
      bind-StartsFor (Asked w.db service p) (configure host service)
        (λ _. start_service host service p >> wait_service host service p) w
        (configure-Harmless host service).started
        (λ a x e.
          let y : World = record x { started = (service, p) ∷ x.started } in
          inr (
            service,
            p,
            (wait_service-Harmless host service p).started y,
            (
              refl,
              refl,
              SameRights-trans w.db x.db (wait_service host service p y).1.db
                  (after-Harmless (configure host service) w (completed a, x)
                    (configure-Harmless host service) e)
                  ((wait_service-Harmless host service p).rights y),
            ),
          ))

  -- The action of the command, and the user's right to it.
  abbrev pub ForCommand : User → ShellCommand → Service → Project → World → Type 0
  ForCommand u c s p v = (git s ≡ c.action) × May v.db (some u) p (repo_action c.action)

  act-StartsFor :
      (u : User) (c : ShellCommand) (p : Project) (action : ShellAction) (w : World)
      → action ≡ c.action
      → May w.db (some u) p (repo_action c.action)
      → StartsFor (ForCommand u c) w (act host u c p action w).1
  act-StartsFor u c p (lfs b) w e may = inl (issue_grant-started u c b p w)
  act-StartsFor u c p (git service) w e may = elim (run_service-StartsFor service p w) [
    | inl h ↦ inl h
    | inr (s, q, h, (is, on, rights)) ↦ inr (
      s,
      q,
      h,
      (
        ap git is ∙ e,
        subst (λ r. May (run_service host service p w).1.db (some u) r (repo_action c.action))
            (sym on)
            (May-same w.db (run_service host service p w).1.db (some u) p (repo_action c.action)
              rights may),
      ),
    )
  ]

  pub command-StartsFor :
      (key_id : ℕ) (c : ShellCommand) (u : User) (w : World)
      → StartsFor (ForCommand u c) w (run_command host key_id c u w).1
  command-StartsFor key_id c u w =
      bind-StartsFor (ForCommand u c)
        (find_project c.namespace c.project >>= found_or_created host u c)
        (λ p.
          authorize host u (repo_action c.action) p
          >> (mark_key_used key_id >> act host u c p c.action))
        w
        (bind-started (find_project c.namespace c.project) (found_or_created host u c)
          (find_project-started c.namespace c.project) (found-started u c))
        (λ p x _.
          bind-StartsFor (ForCommand u c) (authorize host u (repo_action c.action) p)
            (λ _. mark_key_used key_id >> act host u c p c.action) x
            (call_or-started (refused_as (repo_action c.action) p) _
              (authorize_repo-StartsNone (some u) p (repo_action c.action)))
            (λ _ y a.
              let (may, kept) = authorize-May host u (repo_action c.action) p x y a in
              bind-StartsFor (ForCommand u c) (mark_key_used key_id) (λ _. act host u c p c.action)
                y (mark_key_used-Harmless key_id).started
                (λ _ z e. act-StartsFor u c p c.action z refl (
                  May-same y.db z.db (some u) p (repo_action c.action)
                    (after-Harmless (mark_key_used key_id) y (completed tt, z)
                      (mark_key_used-Harmless key_id) e)
                    (subst (λ d. May d (some u) p (repo_action c.action)) (sym kept) may)))))

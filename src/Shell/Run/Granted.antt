-- ===== src/Shell/Run/Granted.antt =====
-- The credential that git-lfs-authenticate prints, and the authentication of the LFS client that presents it.
use rgit.Common.{ℕ, ◌+◌, ◌≡◌, sym, ap, ◌∙◌, Str, text, ◌++◌, Bool, Option, none, some, arith, ◌∷◌}
use rgit.Models.{User, Project, LfsAuthToken}
use rgit.Store.{World, query, execute}
use rgit.Auth.Authorize.{authorize_repo, effective_access_level}
use rgit.Auth.Token.{issue_lfs_token, draw, lfs_token_prefix}
use rgit.Shell.{lfs, ShellCommand, repo_action}
use rgit.Shell.Run.{
  completed, ◌>>=◌, ◌>>◌, lfs_grant, LfsGrant, Host, find_project, found_or_created, mark_key_used,
  authorize, issue_grant, act, run_command, lfs_token_ttl_seconds,
}
use rgit.Shell.Run.Steps.{bind-eq-completed}

-- The users and the time.
pub record Kept (w v : World) : Type 0 where
  pub users : v.db.users ≡ w.db.users
  pub now : v.now ≡ w.now

Kept-trans : (w v u : World) → Kept w v → Kept v u → Kept w u
Kept-trans w v u h k = record { users = k.users ∙ h.users; now = k.now ∙ h.now }

find_project-Kept :
    (ns path : Str) (w v : World) (o : Option Project)
    → find_project ns path w ≡ (completed o, v)
    → Kept w v
unfolding find_project query
find_project-Kept ns path w v o h = record { users = ground arith; now = ground arith }

mark_key_used-Kept :
    (key_id : ℕ) (w v : World) → mark_key_used key_id w ≡ (completed tt, v) → Kept w v
unfolding execute
mark_key_used-Kept key_id w v h = record { users = ground arith; now = ground arith }

module _ (host : Host) where
  found-Kept :
      (u : User) (c : ShellCommand) (b : Bool) (o : Option Project) (w v : World) (p : Project)
      → c.action ≡ lfs b
      → found_or_created host u c o w ≡ (completed p, v)
      → Kept w v
  found-Kept u c b (some q) w v p e h = record { users = ground arith; now = ground arith }
  found-Kept u c b none w v p e h = absurd (ground arith)

  authorize-Kept :
      (u : User) (c : ShellCommand) (p : Project) (w v : World)
      → authorize host u (repo_action c.action) p w ≡ (completed tt, v)
      → Kept w v
  unfolding authorize_repo effective_access_level query
  authorize-Kept u c p w v h = record { users = ground arith; now = ground arith }

abbrev pub row_of : (Str → Str) → User → Project → Bool → Str → ℕ → LfsAuthToken
row_of digest u p can_write raw t = record {
  token_hash = digest raw;
  user_id = u.id;
  project_id = p.id;
  can_write = can_write;
  expires_at = t + lfs_token_ttl_seconds;
}

-- What the grant and the new row hold.
pub record Issued (host : Host) (u : User) (b : Bool) (p : Project) (g : LfsGrant) (w v : World)
    : Type 0 where
  pub random : Str
  pub authorization :
      g.authorization
      ≡ text "Basic "
        ++ host.encode_base64 (u.username ++ (text ":" ++ (lfs_token_prefix ++ random)))
  pub row :
      v.db.lfs_auth_tokens
      ≡ row_of host.naming.digest u p b (lfs_token_prefix ++ random) w.now ∷ w.db.lfs_auth_tokens
  pub kept : Kept w v

module _ (host : Host) where
  issue_grant-Issued :
      (u : User) (c : ShellCommand) (b : Bool) (p q : Project) (g : LfsGrant) (w v : World)
      → issue_grant host u c b p w ≡ (completed (lfs_grant b q g), v)
      → Issued host u b q g w v
  unfolding issue_lfs_token draw execute
  issue_grant-Issued u c b p q g w v h =
      let e : p ≡ q = ground arith in
      record {
        random = w.secrets w.drawn;
        authorization = ground arith;
        row = ground arith;
        kept = record { users = ground arith; now = ground arith };
      }

  pub command-Issued :
      (key_id : ℕ) (c : ShellCommand) (u : User) (b : Bool) (p : Project) (g : LfsGrant)
      (w v : World)
      → c.action ≡ lfs b
      → run_command host key_id c u w ≡ (completed (lfs_grant b p g), v)
      → (x : World) × Kept w x × Issued host u b p g x v
  command-Issued key_id c u b p g w v asked h =
      let rest = λ (q : Project).
        authorize host u (repo_action c.action) q
        >> (mark_key_used key_id >> act host u c q c.action) in
      let (q, x, a, k) =
        bind-eq-completed (find_project c.namespace c.project >>= found_or_created host u c) rest w
          h in
      let (o, y, i, j) =
        bind-eq-completed (find_project c.namespace c.project) (found_or_created host u c) w a in
      let (_, z, l, m) =
        bind-eq-completed (authorize host u (repo_action c.action) q)
          (λ _. mark_key_used key_id >> act host u c q c.action) x k in
      let (_, t, n, r) =
        bind-eq-completed (mark_key_used key_id) (λ _. act host u c q c.action) z m in
      let issue : issue_grant host u c b q t ≡ (completed (lfs_grant b p g), v) =
        ap (λ a. act host u c q a t) (sym asked) ∙ r in
      (
        t,
        Kept-trans w y t (find_project-Kept c.namespace c.project w y o i) (
            Kept-trans y x t (found-Kept host u c b o y x q asked j) (
              Kept-trans x z t (authorize-Kept host u c q x z l)
                (mark_key_used-Kept key_id z t n))),
        issue_grant-Issued u c b q p g t v issue,
      )

-- ===== src/GitHttp/Push.antt =====
-- `post_receive` of crates/rgit-http/src/handlers/git_http.rs: what is written down after a push. The repository that the
-- push leaves is an argument.
use rgit.Common.{ℕ, ◌==◌, find}
use rgit.Error.{db, row_not_found}
use rgit.Models.{Project}
use rgit.Store.{M, query, execute, lift, require, ◌>>=◌}
use rgit.Auth.Token.{now}
use rgit.Tables.Projects.{set_default_branch}
use rgit.Repo.Head.{Git, refresh_head_branch_after_push}

module _ (g : Git) (pushed : Project → g.Repository) where
  unfoldable pub post_receive : ℕ → M (Unit {0})
  post_receive project_id =
      query (λ d. find (λ (p : Project). p.id == project_id) d.projects) >>= (λ row.
        require row (db row_not_found) >>= (λ project.
          lift (refresh_head_branch_after_push g (pushed project)).0
          >>= (λ head. now >>= (λ t. execute (set_default_branch t project_id head)))))

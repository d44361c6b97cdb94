-- ===== src/Projects/Update/Guarded.antt =====
-- Who may change a project's settings.
use rgit.Common.{◌≡◌, subst, Str, Option, arith, true, Memᴰ, text}
use rgit.Result.{ok}
use rgit.Perm.{maintainer}
use rgit.Models.{User, Project}
use rgit.Store.{World, lift, check, ◌>>=◌, ◌>>◌}
use rgit.Store.Calls.{bind-eq-ok}
use rgit.GitRead
use rgit.Locate.{locate}
use rgit.Locate.Named.{locate-Found}
use rgit.Projects.{require_admin_level}
use rgit.Projects.Archived.{Administers, require_admin_level-Administers}
use rgit.Projects.Update.{
  UpdateProject, valid_visibility, valid_name, move_head, write_row, change, update,
}
use rgit.Error.{invalid}

module _ (git_of : Project → GitRead.Git) where
  -- Where an update succeeds, the caller administers a project of the database, and the visibility asked for, if any, is one of the three.
  pub update-Administers :
      (user : User) (id : Str) (req : UpdateProject) (q : Project) (w v : World)
      → update git_of user id req w ≡ (ok q, v)
      → (p : Project) × Memᴰ p w.db.projects
        × Administers w.db user p maintainer
        × (valid_visibility req.visibility ≡ true)
  unfolding update
  update-Administers user id req q w v h =
      let rest = λ (p : Project). require_admin_level user p maintainer >> change git_of req p in
      let (p, x, a, b) = bind-eq-ok (locate id) rest w h in
      let (_, y, c, d) =
        bind-eq-ok (require_admin_level user p maintainer) (λ _. change git_of req p) x b in
      let (stored, kept) = locate-Found id w x p a in
      let (administers, _) = require_admin_level-Administers user p maintainer x y c in
      let write =
        λ (name : Option Str). move_head git_of p req.default_branch >> write_row req name p in
      let (_, z, e, f) =
        bind-eq-ok
          (check (valid_visibility req.visibility)
            (invalid (text "visibility must be 0, 10 or 20")))
          (λ _. lift (valid_name req.name) >>= write) y d in
      (p, stored, subst (λ d. Administers d user p maintainer) kept administers, ground arith)

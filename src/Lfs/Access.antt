-- ===== src/Lfs/Access.antt =====
-- Who reaches a project's LFS objects.
use rgit.Common.{
  Bool, ℕ, subst, ap, ◌≡◌, refl, Str, text, true, false, not, ◌&&◌, Option, none, some, is_some,
  arith, Memᴰ, strip_suffix,
}
use rgit.Result.{Result, ok, err}
use rgit.Perm.{RepoAction}
use rgit.Models.{Project, Namespace}
use rgit.Store.{Db, World}
use rgit.Auth.Authorize.{authorize_repo, is_write}
use rgit.Auth.Authorize.Policy.{May, authorize_repo_sound}
use rgit.Auth.Identity.{Identity, allows, lfs_project}
use rgit.Locate.{find_project}
use rgit.Locate.Named.{find_project-Found}
use rgit.Outcome.{done}
use rgit.Lfs.{
  LfsConfig, outside_token, scope_of, check_project, found_project, authorized, resolve_path,
  resolve_lfs,
}

-- An LFS token is for one project, and for writing only if it says so.
abbrev pub TokenFits : Option (ℕ × Bool) → Project → RepoAction → Type 0
TokenFits none p a = Unit
TokenFits (some (project_id, can_write)) p a =
    (project_id ≡ p.id) × (is_write a && not can_write ≡ false)

token-fits :
    (t : Option (ℕ × Bool)) (p : Project) (a : RepoAction)
    → outside_token t p a ≡ false
    → TokenFits t p a
token-fits none p a h = tt
token-fits (some (i, c)) p a h = (ground arith, ground arith)

-- All that stands between a caller and a project's objects.
pub record Reaches (d : Db) (identity : Identity) (p : Project) (a : RepoAction) : Type 0 where
  pub enabled : p.lfs_enabled ≡ true
  pub may : May d identity.user p a
  pub own_token : TokenFits (lfs_project identity) p a
  pub scope : is_some identity.user && not (allows identity (scope_of a)) ≡ false

authorized-done :
    (p q : Project) (r : Result (Unit {0})) (x v : World)
    → authorized p r x ≡ (done q, v)
    → (r ≡ ok tt) × (p ≡ q)
authorized-done p q r x v h = ground arith

check_project-done :
    (identity : Identity) (a : RepoAction) (p q : Project) (w v : World)
    → check_project identity a p w ≡ (done q, v)
    → Reaches w.db identity q a × (p ≡ q)
check_project-done identity a p q w v h =
    let r = authorize_repo identity.user p a w in
    let enabled : p.lfs_enabled ≡ true = ground arith in
    let own : outside_token (lfs_project identity) p a ≡ false = ground arith in
    let scope : is_some identity.user && not (allows identity (scope_of a)) ≡ false =
      ground arith in
    let tail : authorized p r.0 r.1 ≡ (done q, v) = ground arith in
    let (ok_r, same) = authorized-done p q r.0 r.1 v tail in
    let may = authorize_repo_sound p a identity.user w r.1 (rw ok_r refl) in
    (
      subst (λ t. Reaches w.db identity t a) same
          (record {
            enabled = enabled;
            may = may;
            own_token = token-fits (lfs_project identity) p a own;
            scope = scope;
          }),
      same,
    )

found-done :
    (identity : Identity) (a : RepoAction) (r : Result (Namespace × Project)) (q : Project)
    (w v : World)
    → found_project identity a r w ≡ (done q, v)
    → (n : Namespace) × (r ≡ ok (n, q)) × Reaches w.db identity q a
found-done identity a (ok (n, p)) q w v h =
    let (reach, same) = check_project-done identity a p q w v h in
    (n, ap (λ t. ok (n, t)) same, reach)
found-done identity a (err e) q w v h = cc

path-done :
    (identity : Identity) (ns : Str) (a : RepoAction) (path : Option Str) (q : Project)
    (w v : World)
    → resolve_path identity ns a path w ≡ (done q, v)
    → Reaches w.db identity q a × Memᴰ q w.db.projects
path-done identity ns a none q w v h = cc
path-done identity ns a (some path) q w v h =
    let r = find_project ns path w in
    let (n, e, reach) = found-done identity a r.0 q r.1 v h in
    let (mem, same) = find_project-Found ns path w r.1 n q (ap (λ t. (t, r.1)) e) in
    (subst (λ d. Reaches d identity q a) same reach, mem)

-- Whatever database calls fail: the project that a request for LFS objects gets is one of the
-- database's, has LFS enabled, and its policy allows the caller the action. An LFS token reaches only
-- its own project, and writes only if it was issued for that; a signed-in caller's credential has the
-- scope of the action.
pub resolve_lfs-Reaches :
    (config : LfsConfig) (identity : Identity) (ns proj : Str) (a : RepoAction) (q : Project)
    (w v : World)
    → resolve_lfs config identity ns proj a w ≡ (done q, v)
    → Reaches w.db identity q a × Memᴰ q w.db.projects
unfolding resolve_lfs
resolve_lfs-Reaches config identity ns proj a q w v h =
    path-done identity ns a (strip_suffix (text ".git") proj) q w v (ground arith)

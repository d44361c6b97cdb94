-- ===== src/GitHttp/Resolved.antt =====
-- Who reaches a repository over smart HTTP.
use rgit.Common.{
  Str, text, ◌≡◌, refl, sym, ap, ◌∙◌, subst, true, false, not, ◌&&◌, Option, none, some, is_some,
  strip_suffix, ◌++◌, arith, Bool-cases, inl, inr,
}
use rgit.Result.{Result, ok}
use rgit.Perm.{RepoAction}
use rgit.Models.{User, Project}
use rgit.Store.{Db, World, query}
use rgit.Auth.Authorize.{authorize_repo, effective_access_level}
use rgit.Auth.Authorize.Policy.{May, authorize_repo_sound}
use rgit.Auth.Identity.{Identity, allows, lfs_project}
use rgit.Outcome.{Outcome, done, refused, L, continue, ◌>>=◌, match_on}
use rgit.Locate.{find_project}
use rgit.Protocol.{Service, upload_pack, receive_pack, upload_archive, name}
use rgit.Autocreate.{Naming}
use rgit.GitHttp.{
  repo_action, repo_scope, by_policy, authorize, looked_up, resolve_path, resolve_and_authorize,
  has_type, with_slot, spawn, prepare, service_rpc,
}

module _ {ℓ κ} {A : Type ℓ} {B : Type κ} where
  continue-eq-done :
      (r : Outcome A × World) (f : A → L B) {b : B} {w : World}
      → continue r f ≡ (done b, w)
      → (a : A) × (v : World) × (r ≡ (done a, v)) × (f a v ≡ (done b, w))
  continue-eq-done (done a, v) f h = (a, v, refl, h)
  continue-eq-done (refused s m, v) f h = cc

-- The check of a user's rights reads only.
pub authorize_repo-db :
    (caller : Option User) (p : Project) (a : RepoAction) (w : World)
    → (authorize_repo caller p a w).1.db ≡ w.db
unfolding authorize_repo effective_access_level query
authorize_repo-db none p a w = ground arith
authorize_repo-db (some u) p a w = ground arith

by_policy-done :
    (a : RepoAction) (p q : Project) (r : Result (Unit {0})) (x v : World)
    → by_policy a p r x ≡ (done q, v)
    → (r ≡ ok tt) × (p ≡ q) × (x ≡ v)
by_policy-done a p q r x v h = (ground arith, ground arith, ground arith)

authorize-May :
    (identity : Identity) (a : RepoAction) (p q : Project) (w v : World)
    → authorize identity a p w ≡ (done q, v)
    → May v.db identity.user q a
authorize-May identity a p q w v h =
    let r = authorize_repo identity.user p a w in
    let (e, same, after) = by_policy-done a p q r.0 r.1 v h in
    let may : May w.db identity.user p a =
      authorize_repo_sound p a identity.user w r.1 (rw e refl) in
    let kept : w.db ≡ v.db =
      sym (authorize_repo-db identity.user p a w) ∙ ap (λ (x : World). x.db) after in
    subst (λ d. May d identity.user q a) kept (subst (λ x. May w.db identity.user x a) same may)

-- All that stands between a caller and the Git process.
pub record Reaches (d : Db) (identity : Identity) (p : Project) (service : Service) : Type 0 where
  pub may : May d identity.user p (repo_action service)
  pub no_lfs_token : lfs_project identity ≡ none
  pub scope : is_some identity.user && not (allows identity (repo_scope service)) ≡ false

module _ (naming : Naming) where
  path-Reaches :
      (identity : Identity) (ns : Str) (service : Service) (path : Option Str) (q : Project)
      (w v : World)
      → resolve_path naming identity ns service path w ≡ (done q, v)
      → Reaches v.db identity q service
  path-Reaches identity ns service none q w v h = cc
  path-Reaches identity ns service (some path) q w v h =
      let look = match_on (find_project ns path) (looked_up naming identity.user ns path service) in
      let scope : is_some identity.user && not (allows identity (repo_scope service)) ≡ false =
        ground arith in
      let no_token : is_some (lfs_project identity) ≡ false = ground arith in
      let tail : (look >>= authorize identity (repo_action service)) w ≡ (done q, v) =
        ground arith in
      let (p, x, _, k) =
        continue-eq-done (look w) (authorize identity (repo_action service)) tail in
      record {
        may = authorize-May identity (repo_action service) p q x v k;
        no_lfs_token = ground arith;
        scope = scope;
      }

  -- Whatever calls fail: a project that a request for the service gets, one that the push makes
  -- included, is one whose policy allows the caller the service's action in the database as it is
  -- then; the caller has no LFS credential, and a signed-in caller's credential has the service's scope.
  pub resolve_and_authorize-Reaches :
      (identity : Identity) (ns segment : Str) (service : Service) (q : Project) (w v : World)
      → resolve_and_authorize naming identity ns segment service w ≡ (done q, v)
      → Reaches v.db identity q service
  unfolding resolve_and_authorize
  resolve_and_authorize-Reaches identity ns segment service q w v h =
      path-Reaches identity ns service (strip_suffix (text ".git") segment) q w v h

-- Starting the process keeps the project and the database.
abbrev Keeps : (Project → L Project) → Type 0
Keeps run = (p q : Project) (w v : World) → run p w ≡ (done q, v) → (p ≡ q) × (v.db ≡ w.db)

spawn-Keeps : Keeps spawn
spawn-Keeps p q w v h = (ground arith, ground arith)

prepare-Keeps : (service : Service) → Keeps (prepare service)
prepare-Keeps upload_pack p q w v h = spawn-Keeps p q w v h
prepare-Keeps upload_archive p q w v h = spawn-Keeps p q w v h
prepare-Keeps receive_pack p q w v h = (ground arith, ground arith)

with_slot-Keeps : (run : Project → L Project) → Keeps run → Keeps (with_slot run)
with_slot-Keeps run keep p q w v h = elim (Bool-cases w.git_busy) [
  | inl t ↦ absurd (ground arith)
  | inr f ↦ keep p q w v (ground arith)
]

module _ (naming : Naming) where
  run-Reaches :
      (identity : Identity) (ns segment : Str) (service : Service) (run : Project → L Project)
      (q : Project) (w v : World)
      → Keeps run
      → (resolve_and_authorize naming identity ns segment service >>= with_slot run) w ≡ (done q, v)
      → Reaches v.db identity q service
  run-Reaches identity ns segment service run q w v keep h =
      let (p, x, e, k) =
        continue-eq-done (resolve_and_authorize naming identity ns segment service w)
          (with_slot run) h in
      let (same, kept) = with_slot-Keeps run keep p q x v k in
      let reach = resolve_and_authorize-Reaches naming identity ns segment service p w x e in
      subst (λ d. Reaches d identity q service) (sym kept)
        (subst (λ t. Reaches x.db identity t service) same reach)

  -- Whatever calls fail: a request for git-upload-pack or git-receive-pack that starts a Git process has the
  -- service's content type, and starts it on a project, perhaps one made for this push, whose policy allows
  -- the caller the service's action; the caller has no LFS credential, and a signed-in caller's credential
  -- has the service's scope.
  pub service_rpc-Reaches :
      (identity : Identity) (ns segment : Str) (service : Service) (content_type : Option Str)
      (q : Project) (w v : World)
      → service_rpc naming identity ns segment service content_type w ≡ (done q, v)
      → (has_type content_type (text "application/x-" ++ (name service ++ text "-request")) ≡ true)
        × Reaches v.db identity q service
  unfolding service_rpc
  service_rpc-Reaches identity ns segment service content_type q w v h = (
    ground arith,
    run-Reaches identity ns segment service (prepare service) q w v (prepare-Keeps service)
        (ground arith),
  )

-- ===== src/GitHttp/Opaque.antt =====
-- What a caller learns of a repository that it may not read.
use rgit.Common.{Str, text, ◌≡◌, refl, ap, ◌∙◌, false, some, strip_suffix, arith}
use rgit.Error.{Error, not_found, forbidden}
use rgit.Result.{Result, ok, err}
use rgit.Perm.{read}
use rgit.Models.{User, Namespace, Project}
use rgit.Store.{World, query}
use rgit.Auth.Authorize.{authorize_repo, effective_access_level}
use rgit.Auth.Authorize.Policy.{May, authorize_repo_sound}
use rgit.Auth.Identity.{Identity}
use rgit.Locate.{find_project}
use rgit.Protocol.{Service, upload_pack, receive_pack, upload_archive}
use rgit.Autocreate.{Naming}
use rgit.GitHttp.{resolve_path, resolve_and_authorize, repo_action}

refused :
    (u : User) (p : Project) (w v : World) (x : Error)
    → w.fails w.calls ≡ false
    → authorize_repo (some u) p read w ≡ (err x, v)
    → x ≡ forbidden
unfolding authorize_repo effective_access_level query
refused u p w v x answers e = ground arith

-- A signed-in caller without the right to read is forbidden to, where the database answers.
unread-forbidden :
    (u : User) (p : Project) (w : World)
    → (May w.db (some u) p read → ⊥)
    → w.fails w.calls ≡ false
    → (authorize_repo (some u) p read w).0 ≡ err forbidden
unread-forbidden u p w no_right answers = split (authorize_repo (some u) p read w) refl
  where
    split :
        (r : Result (Unit {0}) × World) → authorize_repo (some u) p read w ≡ r → r.0 ≡ err forbidden
    split (ok tt, v) e = absurd (no_right (authorize_repo_sound p read (some u) w v e))
    split (err x, v) e = ap err (refused u p w v x answers e)

module _ (naming : Naming) (identity : Identity) where
  -- The answer for a name that is there is the one for a name that is not.
  opaque :
      (service : Service) (ns path ns' path' : Str) (n : Namespace) (p : Project)
      (w w₁ w₂ v v₁ : World)
      → repo_action service ≡ read
      → find_project ns path w ≡ (ok (n, p), w₁)
      → authorize_repo identity.user p read w₁ ≡ (err forbidden, w₂)
      → find_project ns' path' v ≡ (err not_found, v₁)
      → (resolve_path naming identity ns service (some path) w).0
        ≡ (resolve_path naming identity ns' service (some path') v).0
  opaque upload_pack ns path ns' path' n p w w₁ w₂ v v₁ r h k l = ground arith
  opaque upload_archive ns path ns' path' n p w w₁ w₂ v v₁ r h k l = ground arith
  opaque receive_pack ns path ns' path' n p w w₁ w₂ v v₁ r h k l = cc

  -- Where the policy does not let a signed-in caller read a repository that is there, and the database answers, the
  -- caller's request to read it is answered with the same status and text as one for any name that is not there.
  pub resolve_and_authorize-opaque :
      (service : Service) (ns segment path ns' segment' path' : Str) (n : Namespace) (p : Project)
      (u : User) (w w₁ v v₁ : World)
      → identity.user ≡ some u
      → repo_action service ≡ read
      → strip_suffix (text ".git") segment ≡ some path
      → find_project ns path w ≡ (ok (n, p), w₁)
      → (May w₁.db (some u) p read → ⊥)
      → w₁.fails w₁.calls ≡ false
      → strip_suffix (text ".git") segment' ≡ some path'
      → find_project ns' path' v ≡ (err not_found, v₁)
      → (resolve_and_authorize naming identity ns segment service w).0
        ≡ (resolve_and_authorize naming identity ns' segment' service v).0
  unfolding resolve_and_authorize
  resolve_and_authorize-opaque service ns segment path ns' segment' path' n p u w w₁ v v₁ is r e h
        no_right answers e' l =
      let run = authorize_repo identity.user p read w₁ in
      let refusal : run ≡ (err forbidden, run.1) =
        ap (λ q. (q, run.1))
          (ap (λ caller. (authorize_repo caller p read w₁).0) is
            ∙ unread-forbidden u p w₁ no_right answers) in
      let same = opaque service ns path ns' path' n p w w₁ run.1 v v₁ r h refusal l in
      rw e (rw e' same)
